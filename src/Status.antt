-- ===== src/Status.antt =====
-- src/stomp_status.c and src/stomp_status.h: the status codes, which are bit flags, and a status with
-- its message. A message is the text that vasprintf produced; the callers write out their formats.
use Prim.Native.Nat.{bit_and}
use libstomp.Prelude.{ℕ, Bool, true, false, Option, none, some, Text, if◌then◌else◌, ◌==◌}

abbrev pub StatusCode : Type 0
StatusCode = ℕ

abbrev pub failure : StatusCode
failure = 0

abbrev pub success : StatusCode
success = 1

abbrev pub no_data : StatusCode
no_data = 2

pub record Status : Type 0 where
  pub code : StatusCode
  pub message : Option Text

unfoldable pub stomp_status_reset : Status → Status
stomp_status_reset s = record s { message = none }

abbrev release : Option Text → Status → Status
release none s = s
release (some _) s = stomp_status_reset s

abbrev assign : Option Text → Status → Status
assign none s = s
assign (some t) s = record s { message = some t }

unfoldable pub stomp_status_set : Status → StatusCode → Option Text → Status
unfolding stomp_status_reset
stomp_status_set s code message =
    let s' = assign message (release s.message s) in record s' { code = code }

unfoldable pub stomp_status_success : Status → Status
unfolding stomp_status_set
stomp_status_success s = stomp_status_set s success none

-- The two tests of the flag STOMP_SUCCESS.
unfoldable pub stomp_success : StatusCode → Bool
stomp_success stat = if bit_and stat success == 0 then false else true

unfoldable pub stomp_error : StatusCode → Bool
stomp_error stat = if bit_and stat success == 0 then true else false
