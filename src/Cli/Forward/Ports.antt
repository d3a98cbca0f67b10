-- ===== src/Cli/Forward/Ports.antt =====
-- Which port the forwarding takes (pymesh/cli/commands.py).
use mathlib.Core.Path.{subst}
use pymesh.Base.{
  ℕ, zero, suc, ◌+◌, ◌≤◌, ◌<◌, ◌≡◌, sym, ◌⊎◌, refl, ◌∙◌, ap, Bool, true, false, none, some, ◌↔◌,
  ltb, arith, Bool-cases, inl, inr,
}
use pymesh.Base.Result.{ok, raise, bad_port}
use pymesh.Cli.Forward.{bind_from}

-- the smallest port of a range that can be bound
pub record IsFirst (binds : ℕ → Bool) (port n q : ℕ) : Type 0 where
  pub low : port ≤ q
  pub high : q < port + n
  pub is_port : q ≤ 65535
  pub free : binds q ≡ true
  pub smallest : (p : ℕ) → port ≤ p → p < q → binds p ≡ false

step-free :
    (binds : ℕ → Bool) (n port : ℕ)
    → ltb 65535 port ≡ false
    → binds port ≡ true
    → bind_from binds (suc n) port ≡ ok (some port)
unfolding bind_from
step-free binds n port e f = rw e (rw f refl)

step-taken :
    (binds : ℕ → Bool) (n port : ℕ)
    → ltb 65535 port ≡ false
    → binds port ≡ false
    → bind_from binds (suc n) port ≡ bind_from binds n (port + 1)
unfolding bind_from
step-taken binds n port e f = rw e (rw f refl)

step-high :
    (binds : ℕ → Bool) (n port : ℕ)
    → ltb 65535 port ≡ true
    → bind_from binds (suc n) port ≡ raise bad_port
unfolding bind_from
step-high binds n port e = rw e refl

port_or_above : (port q : ℕ) → port ≤ q → (q ≡ port) ⊎ (port + 1 ≤ q)
port_or_above port q low = grind arith

IsFirst-here :
    (binds : ℕ → Bool) (n port : ℕ)
    → ltb 65535 port ≡ false
    → binds port ≡ true
    → IsFirst binds port (suc n) port
IsFirst-here binds n port e f = record {
  low = omega arith;
  high = omega arith;
  is_port = ground arith;
  free = f;
  smallest = λ p low high. absurd (omega arith);
}

first-eq : (binds : ℕ → Bool) (n port q : ℕ) → binds port ≡ true → IsFirst binds port n q → q ≡ port
first-eq binds n port q f k = elim (port_or_above port q k.low) [
  | inl e ↦ e
  | inr above ↦ let taken = k.smallest port (omega arith) (omega arith) in cc
]

IsFirst-later :
    (binds : ℕ → Bool) (n port q : ℕ)
    → binds port ≡ false
    → IsFirst binds (port + 1) n q
    → IsFirst binds port (suc n) q
IsFirst-later binds n port q f k =
    let low = k.low in
    let high = k.high in
    record {
      low = omega arith;
      high = omega arith;
      is_port = k.is_port;
      free = k.free;
      smallest = λ p above below. elim (port_or_above port p above) [
        | inl e ↦ ap binds e ∙ f
        | inr up ↦ k.smallest p up below
      ];
    }

IsFirst-earlier :
    (binds : ℕ → Bool) (n port q : ℕ)
    → binds port ≡ false
    → IsFirst binds port (suc n) q
    → IsFirst binds (port + 1) n q
IsFirst-earlier binds n port q f k =
    let free = k.free in
    let high = k.high in
    elim (port_or_above port q k.low) [
      | inl e ↦ let same = ap binds e in cc
      | inr up ↦ record {
        low = up;
        high = omega arith;
        is_port = k.is_port;
        free = free;
        smallest = λ p above below. k.smallest p (omega arith) below;
      }
    ]

all-later :
    (binds : ℕ → Bool) (n port : ℕ)
    → ltb 65535 port ≡ false
    → binds port ≡ false
    → ((p : ℕ) → port + 1 ≤ p → p < port + 1 + n → (p ≤ 65535) × (binds p ≡ false))
    → (p : ℕ) → port ≤ p
    → p < port + suc n
    → (p ≤ 65535) × (binds p ≡ false)
all-later binds n port e f h p low high = elim (port_or_above port p low) [
  | inl same ↦ (ground arith, ap binds same ∙ f)
  | inr up ↦ h p up (omega arith)
]

-- The port that is taken is the first of the range that is free. None is found, without
-- an exception, exactly if every number of the range is a port and none of them is free.
pub bind_from_iff :
    (binds : ℕ → Bool) (n port : ℕ)
    → ((q : ℕ) → (bind_from binds n port ≡ ok (some q)) ↔ IsFirst binds port n q)
      × ((bind_from binds n port ≡ ok none)
          ↔ ((p : ℕ) → port ≤ p → p < port + n → (p ≤ 65535) × (binds p ≡ false)))
unfolding bind_from
bind_from_iff binds zero port = (
  λ q. (λ e. cc, λ f. let low = f.low in let high = f.high in absurd (omega arith)),
  (λ e p low high. absurd (omega arith), λ h. refl),
)
bind_from_iff binds (suc n) port = elim (Bool-cases (ltb 65535 port)) [
  | inl e ↦ rw (step-high binds n port e) (
    λ q. (λ x. cc, λ f. let low = f.low in let high = f.is_port in absurd (ground arith)),
    (λ x. cc, λ h. let here = (h port (omega arith) (omega arith)).0 in absurd (ground arith)),
  )
  | inr e ↦ elim (Bool-cases (binds port)) [
    | inl f ↦ rw (step-free binds n port e f) (
      λ q. (
        λ x. subst (IsFirst binds port (suc n)) (cc) (IsFirst-here binds n port e f),
        λ k. ap (λ p. ok (some p)) (sym (first-eq binds (suc n) port q f k)),
      ),
      (λ x. cc, λ h. let here = (h port (omega arith) (omega arith)).1 in cc),
    )
    | inr f ↦ rw (step-taken binds n port e f) (
        let rest = bind_from_iff binds n (port + 1) in
        (
          λ q. (
            λ x. IsFirst-later binds n port q f ((rest.0 q).0 x),
            λ k. (rest.0 q).1 (IsFirst-earlier binds n port q f k),
          ),
          (
            λ x p low high. all-later binds n port e f (rest.1.0 x) p low high,
            λ h. rest.1.1 (λ p low high. h p (omega arith) (omega arith)),
          ),
        ))
  ]
]
