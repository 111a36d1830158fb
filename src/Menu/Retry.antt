-- ===== src/Menu/Retry.antt =====
-- How long a client of src/menu.c tries to connect.
use mathlib.Core.Path.{subst}
use itmmorgue.Base.{
  ℕ, zero, suc, ◌+◌, ◌≤◌, ◌<◌, ◌≡◌, refl, sym, ◌∙◌, ap, arith, true, false, ◌⊎◌, inl, inr,
  Bool-cases,
}
use itmmorgue.Menu.{Menu, Answers, attempt, try_connect}

-- The attempts ended with number `last`: those before it failed, it succeeded or was the last that is allowed,
-- and the client is connected exactly if it succeeded.
pub record Tried (a : Answers) (retries : ℕ) (s s' : Menu) : Type 0 where
  pub last : ℕ
  pub allowed : last ≤ retries
  pub tried_is : s'.tried ≡ s.tried + last + 1
  pub failed_before : (j : ℕ) → j < last → a.connects (s.tried + j) ≡ false
  pub connected_is : s'.server_connected ≡ a.connects (s.tried + last)
  pub ended : (s'.server_connected ≡ true) ⊎ (last ≡ retries)

tried_zero : (n : ℕ) → n ≡ n + 0
tried_zero n = omega arith

next_of : (n j : ℕ) → n + suc j ≡ n + 1 + j
next_of n j = omega arith

module _ (a : Answers) (retries : ℕ) (s : Menu) where
  try_connect-success : a.connects s.tried ≡ true → try_connect a (suc retries) s ≡ attempt a s
  unfolding try_connect
  try_connect-success e = ground (arith, e)

  try_connect-failure :
      a.connects s.tried ≡ false
      → a.sleeps s.tried ≡ true
      → try_connect a (suc retries) s ≡ try_connect a retries (attempt a s)
  unfolding try_connect
  try_connect-failure e slept = ground (arith, e, slept)

  attempt-Tried : a.connects s.tried ≡ true → Tried a (suc retries) s (attempt a s)
  attempt-Tried e = record {
    last = 0;
    allowed = omega arith;
    tried_is = omega arith;
    failed_before = λ j lt. absurd (omega arith);
    connected_is = ap a.connects (tried_zero s.tried);
    ended = inl e;
  }

  later-Tried :
      {s' : Menu}
      → a.connects s.tried ≡ false
      → Tried a retries (attempt a s) s'
      → Tried a (suc retries) s s'
  later-Tried e t = record {
    last = t.last + 1;
    allowed = omega (arith, t.allowed);
    tried_is = omega (arith, t.tried_is);
    failed_before = earlier;
    connected_is = t.connected_is ∙ ap a.connects (shifted t.last);
    ended = elim t.ended [ inl c ↦ inl c | inr l ↦ inr (omega (arith, l)) ];
  }
    where
      shifted : (k : ℕ) → s.tried + 1 + k ≡ s.tried + (k + 1)
      shifted k = omega arith

      earlier : (j : ℕ) → j < t.last + 1 → a.connects (s.tried + j) ≡ false
      earlier zero lt = ap a.connects (sym (tried_zero s.tried)) ∙ e
      earlier (suc j) lt = ap a.connects (next_of s.tried j) ∙ t.failed_before j (omega arith)

-- With sleeps that are not interrupted, the loop of `m_newgame` and `m_connect` ends: it makes at
-- most one attempt more than `retries`, none behind the first that succeeds, gives up only behind
-- the last one, and leaves `server_connected` as the last attempt's answer.
pub try_connect-Tried :
    (a : Answers) (retries : ℕ) (s : Menu)
    → ((k : ℕ) → a.sleeps k ≡ true)
    → Tried a retries s (try_connect a retries s)
unfolding try_connect
try_connect-Tried a zero s slept = record {
  last = 0;
  allowed = omega arith;
  tried_is = omega arith;
  failed_before = λ j lt. absurd (omega arith);
  connected_is = ap a.connects (tried_zero s.tried);
  ended = inr refl;
}
try_connect-Tried a (suc retries) s slept = elim (Bool-cases (a.connects s.tried)) [
  | inl success ↦
      subst (Tried a (suc retries) s) (sym (try_connect-success a retries s success))
        (attempt-Tried a retries s success)
  | inr failure ↦
      subst (Tried a (suc retries) s)
        (sym (try_connect-failure a retries s failure (slept s.tried)))
        (later-Tried a retries s failure (try_connect-Tried a retries (attempt a s) slept))
]
