-- ===== src/Server/Metrics/Tests.antt =====
-- Concrete runs for the metrics.
use rsync_gateway.Prelude.{◌≡◌, false, some, String}
use rsync_gateway.Prelude.Text.{◌^^◌}
use rsync_gateway.Server.Metrics.{escape_label_value}
use rsync_gateway.Server.Metrics.Labels.{read_label, read_label-escape_label_value}

read_label-escape_label_value_example :
    read_label false (escape_label_value "a\"b\\c\n" ^^ String.◌∷◌ "\"" "} 1\n")
    ≡ some ("a\"b\\c\n", "} 1\n")
read_label-escape_label_value_example = read_label-escape_label_value "a\"b\\c\n" "} 1\n"
