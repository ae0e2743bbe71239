-- ===== src/Server/Metrics.antt =====
-- pkg/server/metrics.go: the metrics in the text format of Prometheus.
pub mod Labels
mod Tests
use Prim.Native.Char.{Char, code}
use rsync_gateway.Prelude.{
  ℕ, suc, Bool, true, false, List, [], ◌∷◌, map, Option, none, some, String, if◌then◌else◌, nat_eq,
  ltb, length,
}
use rsync_gateway.Prelude.Int.{ℤ, pos, ◌-ℤ◌, is_negative}
use rsync_gateway.Prelude.Keys.{Key, ◌==◌, String_eq, Map, lookup}
use rsync_gateway.Prelude.Sort.{sort_by}
use rsync_gateway.Prelude.Text.{◌^^◌, decimal, str_lt}
use rsync_gateway.Api.{int_text}
use rsync_gateway.Queue.{Queue}
use rsync_gateway.Server.{UpstreamConfig}

-- strings.ReplaceAll of one character.
pub replace_all : ℕ → String → String → String
replace_all old by String.[] = ""
replace_all old by (String.◌∷◌ c s) =
    let rest = replace_all old by s in if nat_eq (code c) old then by ^^ rest else String.◌∷◌ c rest

-- prometheusEscapeLabelValue
pub escape_label_value : String → String
unfolding replace_all
escape_label_value s = replace_all 34 "\\\"" (replace_all 10 "\\n" (replace_all 92 "\\\\" s))

-- prometheusLabelValueOrUnknown
pub label_value_or_unknown : String → String
label_value_or_unknown s = if s == "" then "unknown" else s

-- A snapshot of a ConnInfo: the time of its connection in seconds, and the time since in nanoseconds.
pub record Connection : Type 0 where
  pub index : ℕ
  pub module_name : String
  pub upstream : String
  pub sent_bytes : ℤ
  pub received_bytes : ℤ
  pub connected_at : ℤ
  pub duration : ℤ

-- The values of upstreamCounters.
pub record UpstreamCounts : Type 0 where
  pub queue_full : ℕ
  pub dial_error : ℕ
  pub per_ip_rejected : ℕ
  pub idle_terminated : ℕ
  pub max_duration_terminated : ℕ
  pub throughput_floor_terminated : ℕ

-- prometheusConnectionGroup, moduleUpstreamKey
pub record Group : Type 0 where
  pub module_name : String
  pub upstream : String

pub record ModuleStat : Type 0 where
  pub group : Group
  pub completed : ℕ
  pub sent_bytes : ℕ
  pub recv_bytes : ℕ

-- What the metrics are made of.
pub record Readings : Type 0 where
  pub connections : List Connection
  pub upstreams : List UpstreamConfig
  pub queues : Map String Queue
  pub counts : String → UpstreamCounts
  pub unknown_modules : ℕ
  pub active : ℤ
  pub accepted : ℕ
  pub completed : ℕ
  pub sent_total : ℕ
  pub recv_total : ℕ
  pub module_stats : List ModuleStat

-- prometheusLabels
pub labels : Connection → String
unfolding escape_label_value label_value_or_unknown
labels c =
    "index=\""
    ^^ decimal c.index
    ^^ "\",module=\""
    ^^ escape_label_value (label_value_or_unknown c.module_name)
    ^^ "\",upstream=\""
    ^^ escape_label_value (label_value_or_unknown c.upstream)
    ^^ "\""

-- The two comment lines of a metric.
pub preamble : String → String → String → String
preamble name help kind =
    "# HELP " ^^ name ^^ " " ^^ help ^^ "\n# TYPE " ^^ name ^^ " " ^^ kind ^^ "\n"

-- A metric without labels.
pub plain : String → String → String → String → String
unfolding preamble
plain name help kind value = preamble name help kind ^^ name ^^ " " ^^ value ^^ "\n"

pub concat {ℓ} : {A : Type ℓ} → (A → String) → List A → String
concat f [] = ""
concat f (x ∷ xs) = f x ^^ concat f xs

pub upstream_line : String → String → String → String
unfolding escape_label_value
upstream_line metric name value =
    metric ^^ "{upstream=\"" ^^ escape_label_value name ^^ "\"} " ^^ value ^^ "\n"

-- The lines of a gauge over the upstreams that have a queue.
pub queue_line : Map String Queue → String → (Queue → String) → UpstreamConfig → String
unfolding upstream_line
queue_line queues metric value u = elim (lookup u.name queues) [
  | none ↦ ""
  | some q ↦ upstream_line metric u.name (value q)
]

pub queue_metric : Readings → List UpstreamConfig → String → String → (Queue → String) → String
unfolding queue_line preamble concat
queue_metric r us metric help value =
    preamble metric help "gauge" ^^ concat (queue_line r.queues metric value) us

-- A counter over the upstreams.
pub counter_metric :
    Readings → List UpstreamConfig → String → String → (UpstreamCounts → ℕ) → String
unfolding upstream_line preamble concat
counter_metric r us metric help value =
    preamble metric help "counter"
    ^^ concat (λ u. upstream_line metric u.name (decimal (value (r.counts u.name)))) us

pub same_group : Group → Group → Bool
same_group a b = if a.module_name == b.module_name then a.upstream == b.upstream else false

-- The order of the groups.
pub group_before : Group → Group → Bool
group_before a b =
    if a.module_name == b.module_name
    then str_lt a.upstream b.upstream
    else str_lt a.module_name b.module_name

pub group_of : Connection → Group
unfolding label_value_or_unknown
group_of c = record {
  module_name = label_value_or_unknown c.module_name;
  upstream = label_value_or_unknown c.upstream;
}

-- connectionCounts[key]++
pub count_group : Group → List (Group × ℕ) → List (Group × ℕ)
unfolding same_group
count_group g [] = (g, 1) ∷ []
count_group g ((h, n) ∷ rest) =
    let later = count_group g rest in if same_group h g then (h, suc n) ∷ rest else (h, n) ∷ later

pub count_groups : List Connection → List (Group × ℕ) → List (Group × ℕ)
unfolding count_group group_of
count_groups [] counts = counts
count_groups (c ∷ cs) counts = count_groups cs (count_group (group_of c) counts)

pub group_labels : Group → String
unfolding escape_label_value
group_labels g =
    "{module=\""
    ^^ escape_label_value g.module_name
    ^^ "\",upstream=\""
    ^^ escape_label_value g.upstream
    ^^ "\"} "

pub group_line : Group × ℕ → String
unfolding group_labels
group_line (g, n) =
    "rsync_proxy_active_connections_by_module" ^^ group_labels g ^^ decimal n ^^ "\n"

-- A gauge over the connections.
pub connection_metric : List Connection → String → String → (Connection → String) → String
unfolding labels preamble concat
connection_metric cs metric help value =
    preamble metric help "gauge"
    ^^ concat (λ c. metric ^^ "{" ^^ labels c ^^ "} " ^^ value c ^^ "\n") cs

-- A counter over the modules.
pub module_metric : List ModuleStat → String → String → (ModuleStat → ℕ) → String
unfolding group_labels preamble concat
module_metric stats metric help value =
    preamble metric help "counter"
    ^^ concat (λ m. metric ^^ group_labels m.group ^^ decimal (value m) ^^ "\n") stats

-- ListConnectionInfo
pub list_connection_info : List Connection → List Connection
list_connection_info cs = sort_by (λ (a b : Connection). ltb a.index b.index) cs

-- A negative duration counts as 0.
pub duration_of : Connection → ℤ
duration_of c = if is_negative c.duration then pos 0 else c.duration

-- writePrometheusMetrics. `seconds_text` writes nanoseconds as seconds with three decimals.
pub write_prometheus_metrics : (ℤ → String) → Readings → String
unfolding sort_by queue_metric counter_metric plain connection_metric module_metric count_groups
    group_line list_connection_info group_before duration_of concat preamble
write_prometheus_metrics seconds_text r =
    let cs = list_connection_info r.connections in
    let us = sort_by (λ (a b : UpstreamConfig). str_lt a.name b.name) r.upstreams in
    let stats = sort_by (λ (a b : ModuleStat). group_before a.group b.group) r.module_stats in
    let groups = sort_by (λ (a b : Group × ℕ). group_before a.0 b.0) (count_groups cs []) in
    queue_metric r us "rsync_proxy_queued_connections"
      "Current queued rsync proxy connections per upstream." (λ q. decimal (length q.queued))
    ^^ queue_metric r us "rsync_proxy_queue_active_max"
        "Configured max active connections per upstream." (λ q. int_text q.max)
    ^^ queue_metric r us "rsync_proxy_queue_queued_max"
        "Configured max queued connections per upstream." (λ q. int_text q.max_queued)
    ^^ counter_metric r us "rsync_proxy_queue_full_rejected_total"
        "Total connections rejected due to queue full per upstream." (λ c. c.queue_full)
    ^^ counter_metric r us "rsync_proxy_upstream_dial_errors_total"
        "Total upstream dial failures per upstream." (λ c. c.dial_error)
    ^^ counter_metric r us "rsync_proxy_per_ip_rejected_total"
        "Total connections rejected by the per-IP per-upstream concurrency cap."
        (λ c. c.per_ip_rejected)
    ^^ counter_metric r us "rsync_proxy_relay_idle_timeout_terminated_total"
        "Total relay connections terminated by the idle timeout watcher per upstream."
        (λ c. c.idle_terminated)
    ^^ counter_metric r us "rsync_proxy_relay_max_duration_terminated_total"
        "Total relay connections terminated for exceeding the max-duration cap per upstream."
        (λ c. c.max_duration_terminated)
    ^^ counter_metric r us "rsync_proxy_throughput_floor_terminated_total"
        "Total relay connections terminated for falling below the configured throughput floor per upstream."
        (λ c. c.throughput_floor_terminated)
    ^^ plain "rsync_proxy_unknown_module_requests_total" "Total requests for unknown modules."
        "counter" (decimal r.unknown_modules)
    ^^ plain "rsync_proxy_active_connections" "Current active rsync proxy connections." "gauge"
        (int_text r.active)
    ^^ preamble "rsync_proxy_active_connections_by_module"
        "Current active rsync proxy connections by module and upstream." "gauge"
    ^^ concat group_line groups
    ^^ connection_metric cs "rsync_proxy_connection_sent_bytes"
        "Bytes sent to clients for active connections." (λ c. int_text c.sent_bytes)
    ^^ connection_metric cs "rsync_proxy_connection_received_bytes"
        "Bytes received from clients for active connections." (λ c. int_text c.received_bytes)
    ^^ connection_metric cs "rsync_proxy_connection_connected_timestamp_seconds"
        "Unix timestamp when active connections were established." (λ c. int_text c.connected_at)
    ^^ connection_metric cs "rsync_proxy_connection_duration_seconds"
        "Current duration of active connections." (λ c. seconds_text (duration_of c))
    ^^ plain "rsync_proxy_accepted_connections_total" "Total accepted connections since start."
        "counter" (decimal r.accepted)
    ^^ plain "rsync_proxy_completed_connections_total" "Total completed connections since start."
        "counter" (decimal r.completed)
    ^^ plain "rsync_proxy_sent_bytes_total" "Total bytes sent to clients since start." "counter"
        (decimal r.sent_total)
    ^^ plain "rsync_proxy_received_bytes_total" "Total bytes received from clients since start."
        "counter" (decimal r.recv_total)
    ^^ module_metric stats "rsync_proxy_module_completed_connections_total"
        "Total completed connections by module and upstream." (λ m. m.completed)
    ^^ module_metric stats "rsync_proxy_module_sent_bytes_total"
        "Total bytes sent to clients by module and upstream." (λ m. m.sent_bytes)
    ^^ module_metric stats "rsync_proxy_module_received_bytes_total"
        "Total bytes received from clients by module and upstream." (λ m. m.recv_bytes)
