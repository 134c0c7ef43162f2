-- ===== src/Session/Identifiers.antt =====
-- The request identifiers that a session draws do not repeat before they run out.
use esp_iris.Common.{ℕ, zero, suc, ◌+◌, ◌-◌, ◌^◌, ◌%◌, ◌<◌, ◌≡◌, ◌≢◌, ap, ◌∙◌, arith}
use esp_iris.Session.Send.{next_request_id}

-- The identifier after a number of draws.
pub drawn : ℕ → ℕ → ℕ
unfolding next_request_id
drawn id zero = id
drawn id (suc k) = next_request_id (drawn id k)

next_request_id-cycle :
    (n : ℕ) → next_request_id (n % (2 ^ 32 - 1) + 1) ≡ (n + 1) % (2 ^ 32 - 1) + 1
unfolding next_request_id
next_request_id-cycle n = ground arith

next_request_id_first : (id : ℕ) → id < 2 ^ 32 → next_request_id id ≡ id % (2 ^ 32 - 1) + 1
unfolding next_request_id
next_request_id_first id h = ground arith

drawn-cycle : (id k : ℕ) → id < 2 ^ 32 → drawn id (suc k) ≡ (id + k) % (2 ^ 32 - 1) + 1
unfolding drawn
drawn-cycle id zero h = let e : id + zero ≡ id = omega arith in rw e (next_request_id_first id h)
drawn-cycle id (suc k) h =
    let e : id + suc k ≡ id + k + 1 = omega arith in
    rw e (ap next_request_id (drawn-cycle id k h) ∙ next_request_id-cycle (id + k))

-- From whatever identifier a session counts, every draw gives an identifier from 1 to 2^32 - 1, and
-- any two of 2^32 - 1 draws in a row give different ones.
pub drawn-differ :
    (id j k : ℕ)
    → id < 2 ^ 32
    → j < k
    → k < j + (2 ^ 32 - 1)
    → (0 < drawn id (suc j)) × (drawn id (suc j) < 2 ^ 32) × (drawn id (suc j) ≢ drawn id (suc k))
drawn-differ id j k h l m =
    let ej = drawn-cycle id j h in
    let ek = drawn-cycle id k h in
    (omega (arith, ej), omega (arith, ej), λ e. omega (arith, ej, ek, e, l, m))
