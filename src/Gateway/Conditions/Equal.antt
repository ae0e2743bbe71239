-- ===== src/Gateway/Conditions/Equal.antt =====
-- The comparisons of status entries in internal/gateway/conditions.go, on entries that agree but for
-- the times of their conditions.
use rsync_gateway.Prelude.{
  ◌≡◌, refl, ap, Bool, true, ◌&&◌, List, ◌++◌, map, nat_eq_iff, get_or, arith,
}
use rsync_gateway.Prelude.Keys.{String_eq, ==_refl}
use rsync_gateway.Gateway.Objects.{ListenerStatus, RouteParentStatus, RouteGroupKind}
use rsync_gateway.Gateway.Conditions.{
  group_kind_equal, route_group_kinds_equal, listener_status_equal, listener_statuses_equal,
  parent_ref_string, parent_refs_equal, parent_status_equal, parent_statuses_equal,
}
use rsync_gateway.Gateway.Conditions.Content.{
  content, conditions_equal_iff, all_equal_refl, all_equal-append, all_equal-map,
}

and_true : (a b : Bool) → a ≡ true → b ≡ true → (a && b) ≡ true
and_true a b e f = ground arith

pub parent_status_equal_lem :
    (a b : RouteParentStatus)
    → a.controller_name ≡ b.controller_name
    → a.parent_ref ≡ b.parent_ref
    → map content a.conditions ≡ map content b.conditions
    → parent_status_equal a b ≡ true
unfolding parent_status_equal parent_refs_equal
parent_status_equal_lem a b e f g =
    and_true _ _
      (and_true _ _ ((String_eq.eqb_iff a.controller_name b.controller_name).1 e) (
        (String_eq.eqb_iff (parent_ref_string a.parent_ref) (parent_ref_string b.parent_ref)).1
          (ap parent_ref_string f)))
      ((conditions_equal_iff a.conditions b.conditions).1 g)

group_kind_equal_refl : (k : RouteGroupKind) → group_kind_equal k k ≡ true
unfolding group_kind_equal
group_kind_equal_refl k = rw (==_refl (get_or k.group ""), ==_refl k.kind)

pub listener_status_equal_lem :
    (a b : ListenerStatus)
    → a.name ≡ b.name
    → a.attached_routes ≡ b.attached_routes
    → a.supported_kinds ≡ b.supported_kinds
    → map content a.conditions ≡ map content b.conditions
    → listener_status_equal a b ≡ true
unfolding listener_status_equal route_group_kinds_equal
listener_status_equal_lem a b e f g h =
    and_true _ _
      (and_true _ _
        (and_true _ _ ((String_eq.eqb_iff a.name b.name).1 e)
          ((nat_eq_iff a.attached_routes b.attached_routes).1 f))
        (rw g (all_equal_refl group_kind_equal group_kind_equal_refl b.supported_kinds)))
      ((conditions_equal_iff a.conditions b.conditions).1 h)

-- The same entries in front, and after them entries that are equal one by one.
module _ {B : Type 0} where
  pub parent_statuses_equal_lem :
      (xs : List RouteParentStatus) (f g : B → RouteParentStatus) (bs : List B)
      → ((b : B) → parent_status_equal (f b) (g b) ≡ true)
      → parent_statuses_equal (xs ++ map f bs) (xs ++ map g bs) ≡ true
  unfolding parent_statuses_equal
  parent_statuses_equal_lem xs f g bs h =
      all_equal-append parent_status_equal xs xs (map f bs) (map g bs)
        (all_equal_refl parent_status_equal (λ p. parent_status_equal_lem p p refl refl refl) xs)
        (all_equal-map parent_status_equal f g h bs)

  pub listener_statuses_equal_lem :
      (xs : List ListenerStatus) (f g : B → ListenerStatus) (bs : List B)
      → ((b : B) → listener_status_equal (f b) (g b) ≡ true)
      → listener_statuses_equal (xs ++ map f bs) (xs ++ map g bs) ≡ true
  unfolding listener_statuses_equal
  listener_statuses_equal_lem xs f g bs h =
      all_equal-append listener_status_equal xs xs (map f bs) (map g bs)
        (all_equal_refl listener_status_equal
          (λ p. listener_status_equal_lem p p refl refl refl refl) xs)
        (all_equal-map listener_status_equal f g h bs)
