-- ===== src/Operations/Invariant.antt =====
-- What holds of the lock and the gate of a device between two steps.
use Prim.Native.String.{String}
use text.Mathlib.TextPositions.{eq_refl}
use esp_iris.Common.{
  ◌≡◌, ◌⊎◌, inl, inr, refl, sym, ap, ◌∙◌, subst, Bool, true, false, ◌||◌, List, [], ◌∷◌, Option,
  none, some, Bool-cases,
}
use esp_iris.Operations.Gate.{
  Owner, maintenance, operation, Gate, initial, take_lock, acquire_lock, pass_lock, without,
  remove_id,
}

-- A call that runs holds the lock.
abbrev pub Runs : Option Owner → List String → Type 0
Runs lock running =
    (running ≡ []) ⊎ ((id : String) × (running ≡ id ∷ []) × (lock ≡ some (operation id)))

-- During maintenance no call runs; the lock is held for it, or, after a restart, by no one.
abbrev Closed : Gate → Type 0
Closed g =
    (g.running ≡ [])
    × (g.maintenance_pending ≡ false)
    × ((g.lock ≡ some maintenance) ⊎ ((g.lock ≡ none) × (g.waiters ≡ []) × (g.entering ≡ [])))

pub record Inv (g : Gate) : Type 0 where
  pub runs : Runs g.lock g.running
  pub closed : g.maintenance_active ≡ true → Closed g
  pub idle : g.lock ≡ none → g.waiters ≡ []

pub initial-Inv : (restored : Bool) → Inv (initial restored)
initial-Inv restored = record {
  runs = inl refl;
  closed = λ e. (refl, refl, inr (refl, refl, refl));
  idle = λ e. refl;
}

-- A lock that no one holds has no one running.
unlocked : (running : List String) → Runs none running → running ≡ []
unlocked running (inl e) = e
unlocked running (inr (id, e, f)) = absurd (cc f)

pub in_maintenance-false : (a b : Bool) → (a || b) ≡ false → (a ≡ false) × (b ≡ false)
in_maintenance-false false false h = (refl, refl)
in_maintenance-false true b h = absurd (cc h)
in_maintenance-false false true h = absurd (cc h)

take_lock-Inv :
    (owner : Owner) (lock : Option Owner) (waiters : List Owner) (g : Gate)
    → g.lock ≡ lock
    → g.waiters ≡ waiters
    → Runs g.lock g.running
    → (g.lock ≡ none → g.waiters ≡ [])
    → g.maintenance_active ≡ false
      ⊎ ((g.lock ≡ some maintenance) × (g.running ≡ []) × (g.maintenance_pending ≡ false))
    → Inv (take_lock owner lock waiters g)
unfolding take_lock
take_lock-Inv owner none [] g e f runs idle c = record {
  runs = inl (unlocked g.running (subst (λ l. Runs l g.running) e runs));
  closed = λ active. elim c [
    | inl inactive ↦ absurd (cc (active, inactive))
    | inr (held, _, _) ↦ absurd (cc (e, held))
  ];
  idle = λ n. absurd (cc n);
}
take_lock-Inv owner none (w ∷ waiters) g e f runs idle c = absurd (cc (f, idle e))
take_lock-Inv owner (some held) waiters g e f runs idle c = record {
  runs = runs;
  closed = λ active. elim c [
    | inl inactive ↦ absurd (cc (active, inactive))
    | inr (held_for, quiet, settled) ↦ (quiet, settled, inl held_for)
  ];
  idle = λ n. absurd (cc (n, e));
}

-- Asking for the lock: the gate is open, or the lock is held for maintenance.
pub acquire_lock-Inv :
    (owner : Owner) (g : Gate)
    → Runs g.lock g.running
    → (g.lock ≡ none → g.waiters ≡ [])
    → (g.maintenance_active ≡ false)
      ⊎ ((g.lock ≡ some maintenance) × (g.running ≡ []) × (g.maintenance_pending ≡ false))
    → Inv (acquire_lock owner g)
unfolding acquire_lock
acquire_lock-Inv owner g runs idle c = take_lock-Inv owner g.lock g.waiters g refl refl runs idle c

pub pass_lock-Inv :
    (waiters : List Owner) (g : Gate)
    → g.running ≡ []
    → g.maintenance_active ≡ false
    → g.waiters ≡ waiters
    → Inv (pass_lock waiters g)
unfolding pass_lock
pass_lock-Inv [] g quiet inactive e = record {
  runs = inl quiet;
  closed = λ active. absurd (cc (active, inactive));
  idle = λ n. e;
}
pass_lock-Inv (w ∷ waiters) g quiet inactive e = record {
  runs = inl quiet;
  closed = λ active. absurd (cc (active, inactive));
  idle = λ n. absurd (cc n);
}

-- Where a call holds the lock, there is no maintenance.
pub inactive_under :
    (id : String) (g : Gate) → Inv g → g.lock ≡ some (operation id) → g.maintenance_active ≡ false
inactive_under id g v held = elim (Bool-cases g.maintenance_active) [
  | inr e ↦ e
  | inl e ↦ elim (v.closed e).2 [
    | inl other ↦ absurd (owners id (sym held ∙ other))
    | inr (free, _, _) ↦ absurd (cc (held, free))
  ]
]
  where
    owners : (id : String) → ◌≡◌ {A = Option Owner} (some (operation id)) (some maintenance) → ⊥
    owners id h = cc h

remove_own : (id : String) → remove_id id (id ∷ []) ≡ []
unfolding remove_id
remove_own id = simp (eq_refl) refl

pub own_id :
    {i j : String} → ◌≡◌ {A = Option Owner} (some (operation i)) (some (operation j)) → i ≡ j
own_id h = cc h

pub leave-quiet :
    (id : String) (lock : Option Owner) (running : List String)
    → lock ≡ some (operation id)
    → Runs lock running
    → remove_id id running ≡ []
leave-quiet id lock running held (inl e) = ap (remove_id id) e ∙ unfold remove_id in refl
leave-quiet id lock running held (inr (other, e, f)) =
    ap (remove_id id) e
    ∙ subst (λ i. remove_id id (i ∷ []) ≡ []) (own_id (sym held ∙ f)) (remove_own id)

pub without-nil : (owner : Owner) (waiters : List Owner) → waiters ≡ [] → without owner waiters ≡ []
without-nil owner waiters e = ap (without owner) e ∙ unfold without in refl
