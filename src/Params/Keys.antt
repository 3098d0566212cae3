-- ===== src/Params/Keys.antt =====
-- param.rs: the keys of parameters and their letters.
use juttmy_core.Prelude.{ℕ, ◌==◌, ◌≡◌, ◌<◌, refl, if◌then◌else◌, Option, none, some, arith}

pub data Param : Type 0 where
  file width height duration mime_type guarantee_e2ee erroneous_e2ee force_plaintext skip_autocrypt
        wants_mdn forwarded quote cmd arg arg2 arg3 arg4 attach_group_image webrtc_room
        prep_forwards set_latitude set_longitude also_move recipients unpromoted profile_image
        selftalk last_subject devicetalk auth group_id group_name msg_id :
      Param

-- `key as u8`
unfoldable pub letter : Param → ℕ
letter file = 102
letter width = 119
letter height = 104
letter duration = 100
letter mime_type = 109
letter guarantee_e2ee = 99
letter erroneous_e2ee = 101
letter force_plaintext = 117
letter skip_autocrypt = 111
letter wants_mdn = 114
letter forwarded = 97
letter quote = 113
letter cmd = 83
letter arg = 69
letter arg2 = 70
letter arg3 = 71
letter arg4 = 72
letter attach_group_image = 65
letter webrtc_room = 86
letter prep_forwards = 80
letter set_latitude = 108
letter set_longitude = 110
letter also_move = 77
letter recipients = 82
letter unpromoted = 85
letter profile_image = 105
letter selftalk = 75
letter last_subject = 116
letter devicetalk = 68
letter auth = 115
letter group_id = 120
letter group_name = 103
letter msg_id = 73

-- `Param::from_u8`
unfoldable pub from_u8 : ℕ → Option Param
from_u8 n =
    if n == 102
    then some file
    else if n == 119
    then some width
    else if n == 104
    then some height
    else if n == 100
    then some duration
    else if n == 109
    then some mime_type
    else if n == 99
    then some guarantee_e2ee
    else if n == 101
    then some erroneous_e2ee
    else if n == 117
    then some force_plaintext
    else if n == 111
    then some skip_autocrypt
    else if n == 114
    then some wants_mdn
    else if n == 97
    then some forwarded
    else if n == 113
    then some quote
    else if n == 83
    then some cmd
    else if n == 69
    then some arg
    else if n == 70
    then some arg2
    else if n == 71
    then some arg3
    else if n == 72
    then some arg4
    else if n == 65
    then some attach_group_image
    else if n == 86
    then some webrtc_room
    else if n == 80
    then some prep_forwards
    else if n == 108
    then some set_latitude
    else if n == 110
    then some set_longitude
    else if n == 77
    then some also_move
    else if n == 82
    then some recipients
    else if n == 85
    then some unpromoted
    else if n == 105
    then some profile_image
    else if n == 75
    then some selftalk
    else if n == 116
    then some last_subject
    else if n == 68
    then some devicetalk
    else if n == 115
    then some auth
    else if n == 120
    then some group_id
    else if n == 103
    then some group_name
    else if n == 73
    then some msg_id
    else none

pub from_u8-letter : (k : Param) → from_u8 (letter k) ≡ some k
unfolding from_u8 letter
from_u8-letter file = refl
from_u8-letter width = refl
from_u8-letter height = refl
from_u8-letter duration = refl
from_u8-letter mime_type = refl
from_u8-letter guarantee_e2ee = refl
from_u8-letter erroneous_e2ee = refl
from_u8-letter force_plaintext = refl
from_u8-letter skip_autocrypt = refl
from_u8-letter wants_mdn = refl
from_u8-letter forwarded = refl
from_u8-letter quote = refl
from_u8-letter cmd = refl
from_u8-letter arg = refl
from_u8-letter arg2 = refl
from_u8-letter arg3 = refl
from_u8-letter arg4 = refl
from_u8-letter attach_group_image = refl
from_u8-letter webrtc_room = refl
from_u8-letter prep_forwards = refl
from_u8-letter set_latitude = refl
from_u8-letter set_longitude = refl
from_u8-letter also_move = refl
from_u8-letter recipients = refl
from_u8-letter unpromoted = refl
from_u8-letter profile_image = refl
from_u8-letter selftalk = refl
from_u8-letter last_subject = refl
from_u8-letter devicetalk = refl
from_u8-letter auth = refl
from_u8-letter group_id = refl
from_u8-letter group_name = refl
from_u8-letter msg_id = refl

-- Every letter stands behind "@": it is no line end and no "=".
pub letter_bound : (k : Param) → 64 < letter k
unfolding letter
letter_bound file = omega arith
letter_bound width = omega arith
letter_bound height = omega arith
letter_bound duration = omega arith
letter_bound mime_type = omega arith
letter_bound guarantee_e2ee = omega arith
letter_bound erroneous_e2ee = omega arith
letter_bound force_plaintext = omega arith
letter_bound skip_autocrypt = omega arith
letter_bound wants_mdn = omega arith
letter_bound forwarded = omega arith
letter_bound quote = omega arith
letter_bound cmd = omega arith
letter_bound arg = omega arith
letter_bound arg2 = omega arith
letter_bound arg3 = omega arith
letter_bound arg4 = omega arith
letter_bound attach_group_image = omega arith
letter_bound webrtc_room = omega arith
letter_bound prep_forwards = omega arith
letter_bound set_latitude = omega arith
letter_bound set_longitude = omega arith
letter_bound also_move = omega arith
letter_bound recipients = omega arith
letter_bound unpromoted = omega arith
letter_bound profile_image = omega arith
letter_bound selftalk = omega arith
letter_bound last_subject = omega arith
letter_bound devicetalk = omega arith
letter_bound auth = omega arith
letter_bound group_id = omega arith
letter_bound group_name = omega arith
letter_bound msg_id = omega arith
