-- ===== src/Diag/Verdicts.antt =====
-- When `_verdict` of src/recdyud/diag.py is OK.
use recdyud.Base.{
  ℕ, ◌-◌, ◌*◌, ◌<◌, ◌≡◌, ◌↔◌, refl, max, Bool, true, false, not, leb, ◌==◌, if◌then◌else◌, arith,
}
use recdyud.Device.{lock_threshold}
use recdyud.Ts.Analyzer.{TsCounters}
use recdyud.Diag.{
  no_lock, no_data, fullseg_lost, tei_errors, cc_errors, fine, is_mostly_tei, verdict,
}

-- The tests that `_verdict` makes one after another.
passed :
    (b1 b2 b3 b4 b5 : Bool)
    → (if b1
        then no_lock
        else (if b2
            then no_data
            else (if b3
                then fullseg_lost
                else (if b4 then tei_errors else (if b5 then cc_errors else fine)))))
      ≡ fine
    → (b1 ≡ false) × (b2 ≡ false) × (b4 ≡ false) × (b5 ≡ false)
passed true b2 b3 b4 b5 h = cc h
passed false true b3 b4 b5 h = cc h
passed false false true b4 b5 h = cc h
passed false false false true b5 h = cc h
passed false false false false true h = cc h
passed false false false false false h = (refl, refl, refl, refl)

-- The verdict is OK exactly where the lock status is above the threshold, packets came, and no error
-- of either kind was counted.
pub verdict_fine :
    (lock : ℕ) (delta : TsCounters)
    → (verdict lock delta ≡ fine)
      ↔ ((lock_threshold < lock) × (0 < delta.packets) × (delta.tei ≡ 0) × (delta.cc_errors ≡ 0))
unfolding verdict is_mostly_tei
verdict_fine lock delta = (
  λ h.
      let (high, some_data, no_tei, no_cc) =
        passed (leb lock lock_threshold) (delta.packets == 0) (is_mostly_tei delta)
          (not (delta.tei == 0)) (not (delta.cc_errors == 0)) h in
      (ground arith, ground arith, ground arith, ground arith),
  λ (locked, came, clean, continuous).
      let high : leb lock lock_threshold ≡ false = ground arith in
      let some_data : (delta.packets == 0) ≡ false = ground arith in
      let few : leb (90 * max 1 (delta.packets - delta.null)) (100 * delta.tei) ≡ false =
        ground arith in
      let no_tei : (delta.tei == 0) ≡ true = ground arith in
      let no_cc : (delta.cc_errors == 0) ≡ true = ground arith in
      rw (high, some_data, few, no_tei, no_cc),
)
