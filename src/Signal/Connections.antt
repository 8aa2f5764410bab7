-- ===== src/Signal/Connections.antt =====
-- include/yash.hpp: the list of the connections that a client keeps.
use dbuscc.Base.{
  ◌<◌, ◌≤◌, ◌-◌, ◌⊎◌, ℕ, ◌≡◌, refl, ◌==◌, false, none, some, List, [], ◌∷◌, ◌++◌, length, arith,
  Bool-cases, inl, inr,
}
use dbuscc.Signal.{Connection}
use dbuscc.Signal.Listing.{nth, set_nth}

pub nth-below : (n : ℕ) (cs : List Connection) (c : Connection) → nth n cs ≡ some c → n < length cs
nth-below n [] c e = cc (e)
nth-below n (d ∷ cs) c e = elim (Bool-cases (n == 0)) [
  | inl p ↦ ground (arith, p)
  | inr p ↦ let tail = nth-below (n - 1) cs c (ground (arith, p, e)) in ground (arith, p, tail)
]

pub nth-beyond : (n : ℕ) (cs : List Connection) → nth n cs ≡ none → length cs ≤ n
nth-beyond n [] e = omega arith
nth-beyond n (d ∷ cs) e = elim (Bool-cases (n == 0)) [
  | inl p ↦ absurd (ground (arith, p, e))
  | inr p ↦ let tail = nth-beyond (n - 1) cs (ground (arith, p, e)) in ground (arith, p, tail)
]

pub nth-snoc :
    (n : ℕ) (cs : List Connection) (d c : Connection)
    → nth n (cs ++ d ∷ []) ≡ some c
    → (nth n cs ≡ some c) ⊎ ((n ≡ length cs) × (d ≡ c))
nth-snoc n [] d c e = elim (Bool-cases (n == 0)) [
  | inl p ↦ inr (ground (arith, p), ground (arith, p, e))
  | inr p ↦ absurd (ground (arith, p, e))
]
nth-snoc n (x ∷ cs) d c e = elim (Bool-cases (n == 0)) [
  | inl p ↦ inl (ground (arith, p, e))
  | inr p ↦ elim (nth-snoc (n - 1) cs d c (ground (arith, p, e))) [
    | inl q ↦ inl (ground (arith, p, q))
    | inr (q, r) ↦ inr (ground (arith, p, q), r)
  ]
]

pub length-set_nth :
    (n : ℕ) (d : Connection) (cs : List Connection) → length (set_nth n d cs) ≡ length cs
length-set_nth n d [] = refl
length-set_nth n d (x ∷ cs) = elim (Bool-cases (n == 0)) [
  | inl p ↦ ground (arith, p)
  | inr p ↦ ground (arith, p, length-set_nth (n - 1) d cs)
]

-- A connection after another was set: that one, or one that was there under another number.
pub nth-set_nth :
    (n k : ℕ) (cs : List Connection) (d c : Connection)
    → nth k (set_nth n d cs) ≡ some c
    → ((k ≡ n) × (d ≡ c)) ⊎ (((k == n) ≡ false) × (nth k cs ≡ some c))
nth-set_nth n k [] d c e = cc (e)
nth-set_nth n k (x ∷ cs) d c e = elim (Bool-cases (n == 0)) [
  | inl p ↦ elim (Bool-cases (k == 0)) [
    | inl q ↦ inl (ground (arith, p, q), ground (arith, p, q, e))
    | inr q ↦ inr (ground (arith, p, q), ground (arith, p, q, e))
  ]
  | inr p ↦ elim (Bool-cases (k == 0)) [
    | inl q ↦ inr (ground (arith, p, q), ground (arith, p, q, e))
    | inr q ↦ elim (nth-set_nth (n - 1) (k - 1) cs d c (ground (arith, p, q, e))) [
      | inl (r, s) ↦ inl (ground (arith, p, q, r), s)
      | inr (r, s) ↦ inr (ground (arith, p, q, r), ground (arith, p, q, s))
    ]
  ]
]
