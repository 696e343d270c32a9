-- ===== src/Fsort/Scans.antt =====
-- The two inner loops of `fsort2` in src/fsort.c: what a pointer passes, and where it stops.
use lpc.Base.{
  ℕ, zero, suc, ◌+◌, ◌-◌, ◌≤◌, ◌<◌, ◌≡◌, List, ℤ, negative, ltb, leb, Bool, true, false, ◌⊎◌, inl,
  inr, Bool-cases, arith, get_or,
}
use lpc.Fsort.{scan_up, scan_down}

-- Where a pointer that moves up from `a` stops: `test` holds of all that it passes.
pub record StopsUp (test : ℕ → Bool) (a b stop : ℕ) : Type 0 where
  pub from : a ≤ stop
  pub upto : stop ≤ b + 1
  pub passed : (k : ℕ) → a ≤ k → k < stop → test k ≡ true
  pub stopped : (b < stop) ⊎ (test stop ≡ false)

pub record StopsDown (test : ℕ → Bool) (a b stop : ℕ) : Type 0 where
  pub from : stop ≤ b
  pub upto : a ≤ stop
  pub passed : (k : ℕ) → stop < k → k ≤ b → test k ≡ true
  pub stopped : (stop ≡ a) ⊎ (test stop ≡ false)

module _ {E : Type 0} (d : E) (cmpfun : E → E → ℤ) where
  abbrev pub is_below : List E → ℕ → ℕ → Bool
  is_below l bas k = negative (cmpfun (get_or l k d) (get_or l bas d))

  abbrev pub is_above : List E → ℕ → ℕ → Bool
  is_above l bas k = negative (cmpfun (get_or l bas d) (get_or l k d))

  pub scan_up_lem :
      (fuel : ℕ) (l : List E) (bas a b : ℕ)
      → a ≤ b + 1
      → b + 1 ≤ fuel + a
      → StopsUp (is_below l bas) a b (scan_up d cmpfun fuel l bas a b)
  unfolding scan_up
  scan_up_lem zero l bas a b h f = record {
    from = omega arith;
    upto = h;
    passed = λ k p q. absurd (omega arith);
    stopped = inl (omega arith);
  }
  scan_up_lem (suc fuel) l bas a b h f = elim (Bool-cases (leb a b)) [
    | inr e ↦
        rw (e, scan_up)
          record {
            from = omega arith;
            upto = h;
            passed = λ k p q. absurd (omega arith);
            stopped = inl (ground arith);
          }
    | inl e ↦ elim (Bool-cases (is_below l bas a)) [
      | inr e' ↦
          rw (e, e', scan_up)
            record {
              from = omega arith;
              upto = h;
              passed = λ k p q. absurd (omega arith);
              stopped = inr e';
            }
      | inl e' ↦
          let rest = scan_up_lem fuel l bas (a + 1) b (ground arith) (omega arith) in
          rw (e, e', scan_up)
            record {
              from = omega (arith, rest.from);
              upto = rest.upto;
              passed = λ k p q. elim (Bool-cases (leb k a)) [
                | inl g ↦ let same : k ≡ a = ground arith in rw same e'
                | inr g ↦ rest.passed k (ground arith) q
              ];
              stopped = rest.stopped;
            }
    ]
  ]

  pub scan_down_lem :
      (fuel : ℕ) (l : List E) (bas a b : ℕ)
      → a ≤ b
      → b ≤ fuel + a
      → StopsDown (is_above l bas) a b (scan_down d cmpfun fuel l bas a b)
  unfolding scan_down
  scan_down_lem zero l bas a b h f = record {
    from = omega arith;
    upto = h;
    passed = λ k p q. absurd (omega arith);
    stopped = inl (omega arith);
  }
  scan_down_lem (suc fuel) l bas a b h f = elim (Bool-cases (ltb a b)) [
    | inr e ↦
        rw (e, scan_down)
          record {
            from = omega arith;
            upto = h;
            passed = λ k p q. absurd (omega arith);
            stopped = inl (ground arith);
          }
    | inl e ↦ elim (Bool-cases (is_above l bas b)) [
      | inr e' ↦
          rw (e, e', scan_down)
            record {
              from = omega arith;
              upto = h;
              passed = λ k p q. absurd (omega arith);
              stopped = inr e';
            }
      | inl e' ↦
          let rest = scan_down_lem fuel l bas a (b - 1) (ground arith) (ground arith) in
          rw (e, e', scan_down)
            record {
              from = omega (arith, rest.from);
              upto = rest.upto;
              passed = λ k p q. elim (Bool-cases (ltb k b)) [
                | inr g ↦ let same : k ≡ b = ground arith in rw same e'
                | inl g ↦ rest.passed k p (ground arith)
              ];
              stopped = rest.stopped;
            }
    ]
  ]
