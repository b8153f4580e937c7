-- ===== src/Mapping/Interface.antt =====
-- The interface state.State of state/state.go, as far as state/mapping calls it, over a state `S`. An
-- entry is handed over as it is or as ProtoStateMapped; no value stands for the mapped entry itself.
use cckit.Base.{Bool, List, Text}
use cckit.Lang.Exec.{Exec}
use cckit.Lang.Result.{Result}
use cckit.Mapping.Schema.{Entity, Schema}
use cckit.Mapping.StateMappings.{ProtoStateMapped}
use cckit.State.Impl.{HistoryEntry}
use cckit.State.Impl.Listing.{Listing}

pub data Arg (U : Type 0) : Type 0 where
  as_is : Schema U → Arg U
  mapped : ProtoStateMapped U → Arg U

pub record State (S U : Type 0) : Type 0 where
  pub get : Arg U → List (Schema U) → S → Result (Schema U)
  pub get_history : Arg U → Schema U → S → Result (List (HistoryEntry (Entity U)))
  pub exists : Arg U → S → Result Bool
  pub put : Arg U → List (Schema U) → Exec S (Unit {0})
  pub insert : Arg U → List (Schema U) → Exec S (Unit {0})
  pub list : Schema U → List (Schema U) → S → Result (Listing (Entity U))
  pub delete : Arg U → Exec S (Unit {0})
  pub get_private : Text → Arg U → List (Schema U) → S → Result (Schema U)
  pub exists_private : Text → Arg U → S → Result Bool
  pub put_private : Text → Arg U → List (Schema U) → Exec S (Unit {0})
  pub insert_private : Text → Arg U → List (Schema U) → Exec S (Unit {0})
  pub list_private : Text → Bool → Schema U → List (Schema U) → S → Result (Listing (Entity U))
  pub delete_private : Text → Arg U → Exec S (Unit {0})
