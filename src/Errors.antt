-- ===== src/Errors.antt =====
-- The errors of package ssh: `unexpectedMessageError` and `parseError` of common.go, the error
-- variables and the `errors.New` texts of the modelled functions, one constructor for each.
use xcryptossh.Prelude.{ℕ, List, Bytes}

pub data Error : Type 0 where
  eof : Error
  unexpected_eof : Error
  short_read : Error
  parse_error : ℕ → Error
  unexpected_type : ℕ → List ℕ → Error
  unexpected_message : ℕ → ℕ → Error
  field_error : ℕ → Error
  timed_out : Bytes → Error
  no_common : Bytes → Error
  bad_fields : Error
  index_out_of_range : Error
  payload_too_large wrong_length wrote_too_much : Error
  unimplemented_extended : ℕ → Error
  response_on_inbound duplicate_response : Error
  invalid_max_packet : ℕ → Error
  invalid_window_update : ℕ → Error
  undecided decided_already : Error
  invalid_channel : ℕ → Error
  unexpected_response : Error
  open_channel : ℕ → Bytes → Error
  not_global : Error
  junk_in_version version_overflow : Error
  packet_too_large packet_too_small : Error
  mac_failure : Error
  zero_length_packet bogus_new_keys : Error
  disconnected : ℕ → Bytes → Error
  no_key_material : Error
  nil_pointer : Error
  only_transport_sends first_not_kex_init first_not_new_keys : Error
  unexpected_kex : Bytes → Error
  unequal_prompts junk_at_end : Error
