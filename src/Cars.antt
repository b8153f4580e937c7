-- ===== src/Cars.antt =====
-- examples/cars/cars.go: cars that the owner of the chaincode registers. The types of the chaincode are
-- a parameter `U`, among them Car; the parameter of a handler is what the router has read, and the time
-- of the transaction, whose error the code drops, a function of the state.
pub mod Laws
use cckit.Base.{List, [], ◌∷◌, ◌++◌, Text, codes}
use cckit.Lang.Exec.{Exec, lift, reads, ◌>>=◌, ◌>>◌}
use cckit.Lang.Result.{Result, ok, err}
use cckit.Lang.Value.{Value, str, obj, Methods}
use cckit.Owner.{Entry, Identities, set_from_creator, only}
use cckit.State.Event.{EventImpl, set}
use cckit.State.Impl.{Impl, get, insert}
use cckit.State.Impl.Listing.{Listing, list_state}
use cckit.State.Key.{Key}

abbrev pub car_entity : Text
car_entity = codes "CAR"

abbrev pub car_registered_event : Text
car_registered_event = codes "CAR_REGISTERED"

pub record CarPayload : Type 0 where
  pub id : Text
  pub title : Text
  pub owner : Text

pub record Car (T : Type 0) : Type 0 where
  pub id : Text
  pub title : Text
  pub owner : Text
  pub updated_at : T

-- Car.Key
abbrev pub key : {T : Type 0} → Car T → Result Key
key c = ok (car_entity ∷ c.id ∷ [])

-- Cars as values of the chaincode, and what the context says of the time.
pub record CarTypes (S U T : Type 0) : Type 0 where
  pub car_value : Car T → U
  pub zero_time : T
  pub time : S → T

module _ {S U T : Type 0} (m : Methods U) (types : CarTypes S U T) (i : Impl S U) where
  abbrev pub car_of : Text → Car T
  car_of id = record { id = id; title = []; owner = []; updated_at = types.zero_time }

  unfoldable pub query_car : Text → S → Result (Value U)
  query_car id = get m i (obj (types.car_value (car_of id))) []

  unfoldable pub query_cars : S → Result (Listing U)
  query_cars = list_state m i (str car_entity) (obj (types.car_value (car_of [])) ∷ [])

  module _ (e : EventImpl S U) where
    abbrev pub registered : CarPayload → T → Car T
    registered p t = record { id = p.id; title = p.title; owner = p.owner; updated_at = t }

    unfoldable pub invoke_car_register : CarPayload → Exec S (Car T)
    invoke_car_register p = do
      t ← reads (λ s. ok (types.time s))
      set m e (str (car_registered_event ++ codes "First"))
          (obj (types.car_value (registered p t)) ∷ [])
      set m e (str car_registered_event) (obj (types.car_value (registered p t)) ∷ [])
      insert m i (obj (types.car_value (registered p t))) []
      lift (ok (registered p t))

    -- The handler of carRegister, behind owner.Only.
    unfoldable pub car_register : Identities S U → CarPayload → Exec S (Car T)
    unfolding invoke_car_register
    car_register ids p = only m ids i (invoke_car_register p)

-- Init
abbrev pub invoke_init : {S U : Type 0} → Methods U → Identities S U → Impl S U → Exec S Entry
invoke_init = set_from_creator
