-- ===== src/Karma.antt =====
-- Karma, a brake on reading: jab_simul/karma.c. An int and a long are integers without bounds, a
-- time is in microseconds, and `never_updated` is `last_update.tv_sec == 0`.
pub mod Bounds
use jab_simul.Shared.{ℕ, ◌+◌, Bool, not, ◌&&◌, ◌||◌, ltb, if◌then◌else◌}
use jab_simul.Shared.Int.{ℤ, pos, ◌+ℤ◌, ◌-ℤ◌, ◌*ℤ◌, leb_ℤ, ltb_ℤ}

pub record Karma : Type 0 where
  pub val : ℤ
  pub bytes : ℤ
  pub max : ℤ
  pub inc : ℤ
  pub dec : ℤ
  pub penalty : ℤ
  pub restore : ℤ
  pub last_update : ℕ

-- KARMA_HEARTBEAT in microseconds.
abbrev pub heartbeat : ℕ
heartbeat = 2000000

abbrev pub never_updated : Karma → Bool
never_updated k = ltb k.last_update 1000000

-- KARMA_READ_MAX.
abbrev pub read_max : ℤ → ℤ
read_max k = k *ℤ pos 100

abbrev pub cap_at : ℤ → ℤ → ℤ
cap_at x most = if ltb_ℤ most x then most else x

abbrev pub not_negative : ℤ → ℤ
not_negative x = if ltb_ℤ x (pos 0) then pos 0 else x

-- The increment itself, after the test of the heartbeat.
unfoldable pub raise : Karma → ℕ → Karma
raise k now =
    let punishment_over = ltb_ℤ k.val (pos 0) && ltb_ℤ (pos 0) (k.val +ℤ k.inc) in
    let raised = cap_at (k.val +ℤ k.inc) k.max in
    record k {
      val = if punishment_over then k.restore else raised;
      bytes = not_negative (if ltb_ℤ (pos 0) raised then k.bytes -ℤ read_max raised else k.bytes);
      last_update = now;
    }

unfoldable pub karma_inc : Karma → ℕ → Karma
unfolding raise
karma_inc k now =
    if ltb now (k.last_update + heartbeat) && not (never_updated k) then k else raise k now

unfoldable pub karma_dec : Karma → Karma
karma_dec k =
    let lowered = k.val -ℤ k.dec in
    record k { val = if leb_ℤ lowered (pos 0) then k.penalty else lowered }

unfoldable pub add_read : Karma → ℤ → Karma
unfolding karma_dec
add_read k bytes_read =
    let k' = record k { bytes = k.bytes +ℤ bytes_read } in
    if ltb_ℤ (read_max k'.val) k'.bytes then karma_dec k' else k'

-- The karma after the check, and whether it is bad.
unfoldable pub karma_chk : Karma → ℤ → ℕ → Karma × Bool
unfolding karma_inc add_read
karma_chk k bytes_read now =
    let fresh =
      if ltb (k.last_update + heartbeat) now || never_updated k then karma_inc k now else k in
    let read = add_read fresh bytes_read in (read, leb_ℤ read.val (pos 0))
