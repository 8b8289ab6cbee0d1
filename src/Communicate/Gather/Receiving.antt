-- ===== src/Communicate/Gather/Receiving.antt =====
-- Induction on the loop of `read_into` (src/communicate.rs, Windows).
use rust_subprocess.Prelude.{
  ℕ, zero, suc, ◌<◌, true, false, Option, ◌≡◌, arith, ◌==◌, ok, Gives, Delivers, Bool-cases, inl,
  inr,
}
use rust_subprocess.Communicate.Helpers.{Schedule, recv_until}
use rust_subprocess.Communicate.Gather.{Gather, Ending, Turn, again, leave, handle, receive}

-- `P` where the loop goes on, and `Q` of what it returns.
abbrev pub Keeps : (Gather → Type 0) → (Ending → Type 0) → Turn → Type 0
Keeps P Q (again g) = P g
Keeps P Q (leave r) = Gives Q r

-- The same, with fewer than `n` messages left, and only for a turn that neither panics nor hangs.
abbrev pub Advances : (Gather → Type 0) → (Ending → Type 0) → (Gather → ℕ) → ℕ → Turn → Type 0
Advances P Q measure n (again g) = P g × (measure g < n)
Advances P Q measure n (leave r) = Delivers Q r

module _ (schedule : Schedule) (deadline size_limit : Option ℕ) (P : Gather → Type 0)
    (Q : Ending → Type 0)
    (over : (g : Gather) → P g → (g.comm.helper_set == 0) ≡ true → Q (ok tt, g)) where
  pub receive-Gives :
      ((g : Gather)
        → P g
        → (g.comm.helper_set == 0) ≡ false
        → Keeps P Q (handle size_limit (recv_until schedule deadline g.comm.rx) g))
      → (fuel : ℕ) (g : Gather) → P g
      → Gives Q (receive schedule fuel deadline size_limit g)
  unfolding receive
  receive-Gives turn zero g p = tt
  receive-Gives turn (suc fuel) g p = elim (Bool-cases (g.comm.helper_set == 0)) [
    | inl e ↦ rw (e, Gives) (over g p e)
    | inr e ↦
        rw (e, Gives)
          (turned (handle size_limit (recv_until schedule deadline g.comm.rx) g) (turn g p e)
            (λ g'. receive-Gives turn fuel g'))
  ]
    where
      turned :
          (t : Turn)
          → Keeps P Q t
          → ((g' : Gather) → P g' → Gives Q (receive schedule fuel deadline size_limit g'))
          → Gives Q
              (elim t [ again g' ↦ receive schedule fuel deadline size_limit g' | leave r ↦ r ])
      turned (again g') h later = later g' h
      turned (leave r) h later = h

  pub receive-Delivers :
      (measure : Gather → ℕ)
      → ((g : Gather)
          → P g
          → (g.comm.helper_set == 0) ≡ false
          → Advances P Q measure
              (measure g)
              (handle size_limit (recv_until schedule deadline g.comm.rx) g))
      → (fuel : ℕ) (g : Gather) → P g
      → measure g < fuel
      → Delivers Q (receive schedule fuel deadline size_limit g)
  unfolding receive
  receive-Delivers measure turn zero g p h = absurd (omega arith)
  receive-Delivers measure turn (suc fuel) g p h = elim (Bool-cases (g.comm.helper_set == 0)) [
    | inl e ↦ rw (e, Delivers) (over g p e)
    | inr e ↦
        rw (e, Delivers)
          (turned (handle size_limit (recv_until schedule deadline g.comm.rx) g) (turn g p e)
            (λ g'. receive-Delivers measure turn fuel g'))
  ]
    where
      turned :
          (t : Turn)
          → Advances P Q measure (measure g) t
          → ((g' : Gather)
              → P g'
              → measure g' < fuel
              → Delivers Q (receive schedule fuel deadline size_limit g'))
          → Delivers Q
              (elim t [ again g' ↦ receive schedule fuel deadline size_limit g' | leave r ↦ r ])
      turned (again g') a later = later g' a.0 (omega (arith, h, a.1))
      turned (leave r) a later = a
