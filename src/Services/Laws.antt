-- ===== src/Services/Laws.antt =====
-- What the processes listen on (controller/app.py and pymesh/dns/server.py).
use pymesh.Base.{ℕ, ◌≡◌, refl, ◌||◌, Bool, true, false, if◌then◌else◌, Bool-cases, inl, inr}
use pymesh.Base.Text.{codes}
use pymesh.Dns.Server.Sockets.{first_bound, start, stop}
use pymesh.Services.{lifespan, run_dns_server, controller_lines}

-- The DNS server of the controller listens exactly if 53, 5353 or 5300 is free, on the first of
-- them that is, which is the port that is printed; when the controller ends it listens no more.
pub lifespan_lem :
    (binds : ℕ → Bool)
    → ((lifespan binds).serving.is_open ≡ (binds 53 || (binds 5353 || binds 5300)))
      × ((lifespan binds).serving.bind_port
          ≡ (if binds 53 then 53 else if binds 5353 then 5353 else if binds 5300 then 5300 else 53))
      × ((lifespan binds).lines ≡ controller_lines (lifespan binds).serving.bind_port)
      × ((lifespan binds).stopped.is_open ≡ false)
unfolding lifespan start stop first_bound
lifespan_lem binds = elim (Bool-cases (binds 53)) [
  | inl a ↦ rw a (refl, refl, refl, refl)
  | inr a ↦ elim (Bool-cases (binds 5353)) [
    | inl b ↦ rw (a, b) (refl, refl, refl, refl)
    | inr b ↦ elim (Bool-cases (binds 5300)) [
      | inl c ↦ rw (a, b, c) (refl, refl, refl, refl)
      | inr c ↦ rw (a, b, c) (refl, refl, refl, refl)
    ]
  ]
]

-- The DNS server on its own prints the port that was asked for: with 53 taken and 5353 free it
-- says 53 and listens on 5353.
run_dns_server-port :
    (binds : ℕ → Bool)
    → binds 53 ≡ false
    → binds 5353 ≡ true
    → ((run_dns_server binds (codes "0.0.0.0") 53).serving.bind_port ≡ 5353)
      × ((run_dns_server binds (codes "0.0.0.0") 53).lines
          ≡ (run_dns_server (λ port. true) (codes "0.0.0.0") 53).lines)
unfolding run_dns_server start stop first_bound
run_dns_server-port binds a b = rw (a, b) (refl, refl)
