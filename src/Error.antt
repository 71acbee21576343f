-- ===== src/Error.antt =====
-- `Error` of error.rs.
use hwire.Base.{ℕ, Bool, true, false, Option, none, some}
use hwire.Io.{IoError}

pub data Header : Type 0 where
  token content_length_invalid transfer_encoding_unexpected : Header

pub data Parse : Type 0 where
  method version version_h2 uri too_large status internal : Parse
  header : Header → Parse

pub data User : Type 0 where
  body body_write_aborted invalid_connect_with_body service no_upgrade manual_upgrade
        dispatch_gone :
      User

-- `Kind`
pub data ErrorKind : Type 0 where
  parse : Parse → ErrorKind
  user : User → ErrorKind
  incomplete_message unexpected_message canceled channel_closed io body body_write : ErrorKind
  shutdown http2 : ErrorKind

-- The causes that the connection attaches: an I/O error, or `NotEof`
pub data Cause : Type 0 where
  from_io : IoError → Cause
  from_not_eof : ℕ → Cause

pub record Error : Type 0 where
  pub kind : ErrorKind
  pub cause : Option Cause

abbrev pub new_error : ErrorKind → Error
new_error k = record { kind = k; cause = none }

abbrev pub with_cause : Error → Cause → Error
with_cause e c = record e { cause = some c }

abbrev pub is_parse : Error → Bool
is_parse e = elim e.kind [ parse p ↦ true | _ ↦ false ]

abbrev pub new_incomplete : Error
new_incomplete = new_error incomplete_message

abbrev pub new_too_large : Error
new_too_large = new_error (parse too_large)

abbrev pub new_version_h2 : Error
new_version_h2 = new_error (parse version_h2)

abbrev pub new_unexpected_message : Error
new_unexpected_message = new_error unexpected_message

abbrev pub new_io : IoError → Error
new_io e = with_cause (new_error io) (from_io e)

abbrev pub new_body_write_aborted : Error
new_body_write_aborted = new_error (user body_write_aborted)
