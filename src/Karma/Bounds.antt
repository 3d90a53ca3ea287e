-- ===== src/Karma/Bounds.antt =====
-- Bounds of the karma, and what the check says: jab_simul/karma.c.
use jab_simul.Shared.{
  ℕ, ◌+◌, ◌≡◌, refl, ◌↔◌, Bool, true, false, not, ◌&&◌, ◌||◌, arith, ltb, if◌then◌else◌,
}
use jab_simul.Shared.Int.{ℤ, pos, ◌+ℤ◌, ◌-ℤ◌, ◌≤ℤ◌, leb_ℤ, ltb_ℤ}
use jab_simul.Karma.{
  Karma, karma_inc, karma_dec, karma_chk, raise, add_read, read_max, heartbeat, cap_at,
  never_updated,
}

-- Sensible settings: a penalty is below 0, a restored karma is in range, and a decrement does not
-- raise.
pub record HasSettings (k : Karma) : Type 0 where
  pub penalty_low : k.penalty ≤ℤ pos 0
  pub max_positive : pos 0 ≤ℤ k.max
  pub restore_low : k.restore ≤ℤ k.max
  pub dec_positive : pos 0 ≤ℤ k.dec

-- The karma is at most `max`, and the settings are what they were.
pub record Kept (k k' : Karma) : Type 0 where
  pub val_low : k'.val ≤ℤ k.max
  pub max_same : k'.max ≡ k.max
  pub penalty_same : k'.penalty ≡ k.penalty
  pub restore_same : k'.restore ≡ k.restore
  pub dec_same : k'.dec ≡ k.dec
  pub inc_same : k'.inc ≡ k.inc

raised_val-le :
    (over : Bool) (restore raised max : ℤ)
    → restore ≤ℤ max
    → (if over then restore else cap_at raised max) ≤ℤ max
raised_val-le over restore raised max h = ground arith

raise-Kept : (k : Karma) (now : ℕ) → HasSettings k → Kept k (raise k now)
unfolding raise
raise-Kept k now s = record {
  val_low = raised_val-le _ k.restore (k.val +ℤ k.inc) k.max s.restore_low;
  max_same = refl;
  penalty_same = refl;
  restore_same = refl;
  dec_same = refl;
  inc_same = refl;
}

same-Kept : (k : Karma) → k.val ≤ℤ k.max → Kept k k
same-Kept k h = record {
  val_low = h;
  max_same = refl;
  penalty_same = refl;
  restore_same = refl;
  dec_same = refl;
  inc_same = refl;
}

karma_inc-Kept : (k : Karma) (now : ℕ) → HasSettings k → k.val ≤ℤ k.max → Kept k (karma_inc k now)
unfolding karma_inc
karma_inc-Kept k now s h =
    if_Kept (ltb now (k.last_update + heartbeat) && not (never_updated k)) (same-Kept k h)
      (raise-Kept k now s)
  where
    if_Kept : (b : Bool) → Kept k k → Kept k (raise k now) → Kept k (if b then k else raise k now)
    if_Kept true x y = x
    if_Kept false x y = y

lowered_val-le :
    (val dec penalty max : ℤ)
    → pos 0 ≤ℤ dec
    → penalty ≤ℤ pos 0
    → pos 0 ≤ℤ max
    → val ≤ℤ max
    → (if leb_ℤ (val -ℤ dec) (pos 0) then penalty else val -ℤ dec) ≤ℤ max
unfolding ◌-ℤ◌
lowered_val-le val dec penalty max d p m h = ground arith

add_read-Kept : (k j : Karma) (n : ℤ) → HasSettings k → Kept k j → Kept k (add_read j n)
unfolding add_read karma_dec
add_read-Kept k j n s h = if_Kept (ltb_ℤ (read_max j.val) (j.bytes +ℤ n))
  where
    if_Kept :
        (b : Bool)
        → let j' = record j { bytes = j.bytes +ℤ n } in Kept k (if b then karma_dec j' else j')
    if_Kept true = record {
      val_low =
          lowered_val-le j.val j.dec j.penalty k.max (rw h.dec_same s.dec_positive)
            (rw h.penalty_same s.penalty_low) s.max_positive h.val_low;
      max_same = h.max_same;
      penalty_same = h.penalty_same;
      restore_same = h.restore_same;
      dec_same = h.dec_same;
      inc_same = h.inc_same;
    }
    if_Kept false = record {
      val_low = h.val_low;
      max_same = h.max_same;
      penalty_same = h.penalty_same;
      restore_same = h.restore_same;
      dec_same = h.dec_same;
      inc_same = h.inc_same;
    }

leb_ℤ_iff : (a b : ℤ) → (leb_ℤ a b ≡ true) ↔ (a ≤ℤ b)
leb_ℤ_iff a b = ground arith

-- With a penalty of at most 0, a maximum of at least 0, a restored karma within the maximum and a
-- decrement that is not negative: from a karma within its maximum, karma_chk leaves a karma within
-- the same maximum and changes no setting, however many bytes were read and however late it is. It
-- calls the karma bad exactly if that karma is not positive.
pub karma_chk-Kept :
    (k : Karma) (n : ℤ) (now : ℕ)
    → HasSettings k
    → k.val ≤ℤ k.max
    → Kept k (karma_chk k n now).0
      × (((karma_chk k n now).1 ≡ true) ↔ (karma_chk k n now).0.val ≤ℤ pos 0)
unfolding karma_chk
karma_chk-Kept k n now s h = (
  add_read-Kept k _ n s (fresh_Kept (ltb (k.last_update + heartbeat) now || never_updated k)),
  leb_ℤ_iff _ (pos 0),
)
  where
    fresh_Kept : (b : Bool) → Kept k (if b then karma_inc k now else k)
    fresh_Kept true = karma_inc-Kept k now s h
    fresh_Kept false = same-Kept k h
