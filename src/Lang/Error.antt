-- ===== src/Lang/Error.antt =====
-- Go errors: the package-level error values of state/errors.go, state/invoke.go,
-- state/mapping/errors.go, router/errors.go, extensions/owner, extensions/encryption, examples/erc20
-- and testing, and the ways in which the code builds errors from them.
use cckit.Base.{ℕ, Text}

-- The error variables (`var Err… = errors.New(…)`).
pub data Sentinel : Type 0 where
  -- state/errors.go, state/invoke.go
  unable_to_create_state_key unable_to_create_event_name : Sentinel
  key_already_exists key_not_found allow_only_one_value key_parts_length : Sentinel
  empty_chaincode_response_payload : Sentinel
  -- convert/convert.go
  unable_to_convert_nil_to_struct unable_to_convert_value_to_struct : Sentinel
  -- router/errors.go
  empty_args method_not_found : Sentinel
  -- extensions/owner
  owner_only owner_not_provided owner_already_setted : Sentinel
  -- extensions/encryption/state.go
  key_not_defined_in_transient_map : Sentinel
  -- state/mapping/errors.go
  entry_type_not_supported state_mapping_not_found event_mapping_not_found : Sentinel
  field_type_not_supported mapping_uniq_key_exists field_not_exists : Sentinel
  primary_keyer_not_defined index_already_exists index_reference_not_found : Sentinel
  -- examples/erc20/erc20_ops.go
  not_enough_funds forbidden_to_transfer_to_same_account : Sentinel
  spender_not_have_allowance : Sentinel
  -- testing/mockstub.go
  chaincode_not_exists key_already_exists_in_transient_map : Sentinel

pub data Error : Type 0 where
  -- the variable itself
  base : Sentinel → Error
  -- `errors.Wrap(err, text)` and `fmt.Errorf("text: %w", err)`, which keep their cause
  noted : Text → Error → Error
  -- `fmt.Errorf("%w: %s", Err…, text)`
  caused : Sentinel → Text → Error
  -- `fmt.Errorf("%s: %s", Err…, text)`, which keeps the texts only
  errorf : Sentinel → Text → Error
  -- `errors.New(text)` inside a function
  message : Text → Error
  -- made by code outside the repository
  external : ℕ → Error
