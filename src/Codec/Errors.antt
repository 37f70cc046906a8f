-- ===== src/Codec/Errors.antt =====
-- The classified errors of internal/codec/errors.go. The free text in `Detail` is left out, and so
-- is `Error`, which only builds a message.
use Prim.Native.String.{String}
use wg.Prelude.{Result}
use wg.Prelude.Int.{ℤ}

-- `stuck` is no error of the source: it marks a loop of the model that has used up its fuel, or an
-- index out of range, where the source would panic.
pub data ErrorKind : Type 0 where
  truncated length_error limit trailing_data version_error kind_error flags_error reserved_error
        cid_error packet_number_error tlv_order duplicate_tlv unknown_critical_tlv tlv_length
        tlv_context_error missing_tlv unknown_frame_type frame_flags frame_constraint
        ip_packet_error utf8_error stuck :
      ErrorKind

pub record DecodeError : Type 0 where
  pub kind : ErrorKind
  pub offset : ℤ
  pub field : String

abbrev pub decode_error : ErrorKind → ℤ → String → DecodeError
decode_error kind offset field = record { kind = kind; offset = offset; field = field }

abbrev pub Decoded : Type 0 → Type 0
Decoded A = Result DecodeError A
