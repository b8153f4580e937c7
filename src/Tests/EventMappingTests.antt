-- ===== src/Tests/EventMappingTests.antt =====
-- Tests of the mapping of events, and their theorem at concrete inputs: an event for a created car.
use cckit.Base.{◌≡◌, ◌≢◌, refl, ℕ, zero, some, List, [], ◌∷◌, Text, codes}
use cckit.Lang.Exec.{Exec}
use cckit.Lang.Result.{ok}
use cckit.Lang.Value.{Value, obj, Methods}
use cckit.Mapping.Events.{EventArg, event_name, with_event_defaults}
use cckit.Mapping.StateMappings.{type_in_package, from_dot}
use cckit.Tests.Memory.{no_methods}

abbrev type_of : Value ℕ → Text
type_of (obj zero) = codes "*cars.Created"
type_of _ = codes "*cars.Other"

abbrev messages : Methods ℕ
messages = record no_methods { type_name = type_of; proto_marshal = λ u. some (ok []) }

-- The state is the last event that was set.
abbrev set_event : EventArg ℕ → List (Value ℕ) → Exec (List (EventArg ℕ)) (Unit {0})
set_event e value s = (ok tt, e ∷ [])

other_type : type_of (obj 1) ≢ type_of (obj 0)
other_type h = cc

-- The default name is that of the type in its package.
default_name :
    event_name (record {
      instance_ = obj 0;
      event_mapper = with_event_defaults messages (record { schema = obj 0; name = [] });
    })
    ≡ ok (codes "Created")
unfolding event_name with_event_defaults type_in_package from_dot
default_name = refl
