-- ===== src/Bindings/Tests.antt =====
-- A command of the current generation, on a broker that is the set of its bindings.
use messaging_system.Base.{
  ◌≡◌, ◌⊎◌, refl, Bool, true, false, ◌&&◌, ◌||◌, not, some, Result, ok, err,
}
use messaging_system.Base.Text.{Text, text_eq}
use messaging_system.Base.Table.{lookup}
use messaging_system.Identifier.{
  strip, lstrip, rstrip, keep, is_space, is_safe_identifier, is_safe_char,
}
use messaging_system.Rbac.{can_read}
use messaging_system.Store.{Db}
use messaging_system.Topology.{is_entitled}
use messaging_system.Membership.Tests.{office}
use messaging_system.Bindings.{
  Broker, Command, BindingError, Applied, state_row, after_prefix, is_channel_key, known_keys,
  project, apply_current, apply_broker_binding,
}
use messaging_system.Bindings.Exact.{Projected, is_stale, apply_broker_binding-exact}

abbrev Bindings : Type 0
Bindings = Text → Text → Bool

abbrev toy_broker : Broker Bindings
toy_broker = record {
  declare = λ u q. q;
  bind = λ u j q v k. text_eq u v && text_eq j k || q v k;
  unbind = λ u j q v k. not (text_eq u v && text_eq j k) && q v k;
  bound = λ v k q. q v k;
  bound-declare = λ u v k q. refl;
  bound-bind = λ u v j k q. refl;
  bound-unbind = λ u v j k q. refl;
}

abbrev nothing_bound : Bindings
nothing_bound v k = false

abbrev command : Command
command = record { generation = some 1; reference = some (10, 3) }

abbrev result : Result BindingError (Applied × Db × Bindings)
result = apply_broker_binding toy_broker command office nothing_bound

abbrev db_of : Result BindingError (Applied × Db × Bindings) → Db
db_of (ok (a, db, q)) = db
db_of (err e) = office

abbrev bindings_of : Result BindingError (Applied × Db × Bindings) → Bindings
bindings_of (ok (a, db, q)) = q
bindings_of (err e) = nothing_bound

result-bound : result ≡ ok (Applied.applied_bound, db_of result, bindings_of result)
unfolding apply_broker_binding apply_current project state_row lookup strip lstrip rstrip keep
    is_space is_safe_identifier is_safe_char known_keys is_channel_key after_prefix is_entitled
    can_read
result-bound = refl

apply_broker_binding-exact_example :
    ((is_stale Applied.applied_bound ≡ true)
      × (db_of result ≡ office)
      × (bindings_of result ≡ nothing_bound))
    ⊎ Projected toy_broker command Applied.applied_bound office
        (db_of result)
        nothing_bound
        (bindings_of result)
apply_broker_binding-exact_example =
    apply_broker_binding-exact toy_broker command office (db_of result) nothing_bound
      (bindings_of result) Applied.applied_bound result-bound
