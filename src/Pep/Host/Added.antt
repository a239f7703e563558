-- ===== src/Pep/Host/Added.antt =====
-- What a step adds to the commands that were spawned, composed as the steps are.
use mathlib.Core.List.{append_assoc, append-nil}
use confidential_agent.Common.{
  ◌+◌, ◌%◌, ◌^◌, String, List, [], ◌∷◌, ◌++◌, All, ◌≡◌, refl, sym, ap, ap₂, ◌∙◌,
}
use confidential_agent.Pep.{Outcome, fail, success, panics, map_err, Command, World, Io}
use confidential_agent.Pep.Host.{
  Host, Process, lift, continue, ◌>>=◌, ◌>>◌, wrap_err, attempt, now, unique_id, started, spawn,
}

All-append : (P : Command → Type 0) (xs ys : List Command) → All P xs → All P ys → All P (xs ++ ys)
All-append P [] ys h k = k
All-append P (x ∷ xs) ys (p, h) k = (p, All-append P xs ys h k)

-- The second world has the first one's commands, and then only commands with `P`.
abbrev pub Extends : (Command → Type 0) → World → World → Type 0
Extends P w w' = (cs : List Command) × (w'.spawned ≡ w.spawned ++ cs) × All P cs

-- The step only spawns commands with `P`.
pub record Adds {E A : Type 0} (P : Command → Type 0) (m : Io E A) : Type 0 where
  pub added : (w : World) → Extends P w (m.run w).1

module _ (P : Command → Type 0) where
  pub Extends-same : (w w' : World) → w'.spawned ≡ w.spawned → Extends P w w'
  Extends-same w w' h = ([], h ∙ sym (append-nil w.spawned), tt)

  Extends-Extends : (u v w : World) → Extends P u v → Extends P v w → Extends P u w
  Extends-Extends u v w (cs, e, h) (ds, f, k) = (
    cs ++ ds,
    f ∙ ap (λ (xs : List Command). xs ++ ds) e ∙ append_assoc u.spawned cs ds,
    All-append P cs ds h k,
  )

module _ {E A : Type 0} (P : Command → Type 0) where
  pub lift-Adds : (m : Outcome E A) → Adds P (lift m)
  unfolding lift
  lift-Adds m = record { added = λ w. Extends-same P w w refl }

  pub attempt-Adds : (m : Io E A) → Adds P m → Adds P (attempt m)
  unfolding attempt
  attempt-Adds m h = record { added = h.added }

module _ {E A B : Type 0} (P : Command → Type 0) where
  continue-Extends :
      (next : A → Io E B) (u : World) (r : Outcome E A × World)
      → ((a : A) → Adds P (next a))
      → Extends P u r.1
      → Extends P u (continue next r).1
  continue-Extends next u (fail e, v) h k = k
  continue-Extends next u (panics, v) h k = k
  continue-Extends next u (success a, v) h k =
      Extends-Extends P u v ((next a).run v).1 k ((h a).added v)

  pub bind-Adds :
      (m : Io E A) (next : A → Io E B)
      → Adds P m
      → ((a : A) → Adds P (next a))
      → Adds P (m >>= next)
  unfolding ◌>>=◌
  bind-Adds m next h k = record { added = λ w. continue-Extends next w (m.run w) k (h.added w) }

  pub wrap_err-Adds : (f : E → B) (m : Io E A) → Adds P m → Adds P (wrap_err f m)
  unfolding wrap_err
  wrap_err-Adds f m h = record { added = h.added }

All-weaken :
    (P Q : Command → Type 0)
    → ((c : Command) → P c → Q c)
    → (cs : List Command) → All P cs
    → All Q cs
All-weaken P Q f [] h = tt
All-weaken P Q f (c ∷ cs) (p, h) = (f c p, All-weaken P Q f cs h)

pub weaken-Adds :
    {E A : Type 0} (P Q : Command → Type 0) (m : Io E A)
    → ((c : Command) → P c → Q c)
    → Adds P m
    → Adds Q m
weaken-Adds P Q m f h = record {
  added = λ w. let (cs, e, all) = h.added w in (cs, e, All-weaken P Q f cs all);
}

module _ {E A B : Type 0} (P : Command → Type 0) where
  -- A check is known to have passed in what follows it.
  pub bind_lift-Adds :
      (m : Outcome E A) (next : A → Io E B)
      → ((a : A) → m ≡ success a → Adds P (next a))
      → Adds P (lift m >>= next)
  unfolding lift ◌>>=◌
  bind_lift-Adds (fail e) next h = record { added = λ w. Extends-same P w w refl }
  bind_lift-Adds (success a) next h = record { added = (h a refl).added }
  bind_lift-Adds panics next h = record { added = λ w. Extends-same P w w refl }

module _ {E B : Type 0} (P : Command → Type 0) where
  pub seq-Adds : (m : Io E (Unit {0})) (next : Io E B) → Adds P m → Adds P next → Adds P (m >> next)
  unfolding ◌>>◌
  seq-Adds m next h k = record {
    added = λ w. continue-Extends P (λ done. next) w (m.run w) (λ done. k) (h.added w);
  }

module _ {E B : Type 0} (P : Command → Type 0) where
  pub seq_lift-Adds :
      (m : Outcome E (Unit {0})) (next : Io E B)
      → (m ≡ success tt → Adds P next)
      → Adds P (lift m >> next)
  unfolding lift ◌>>◌
  seq_lift-Adds (fail e) next h = record { added = λ w. Extends-same P w w refl }
  seq_lift-Adds (success done) next h = record { added = (h refl).added }
  seq_lift-Adds panics next h = record { added = λ w. Extends-same P w w refl }

module _ (E : Type 0) (P : Command → Type 0) (host : Host) where
  pub now-Adds : Adds P (now host {E = E})
  unfolding now
  now-Adds = record { added = λ w. Extends-same P w w refl }

  pub unique_id-Adds : (prefix : String) → Adds P (unique_id host {E = E} prefix)
  unfolding unique_id
  unique_id-Adds prefix = record {
    added = λ w. Extends-same P w (record w { next_id = (w.next_id + 1) % 2 ^ 64 }) refl;
  }

module _ (P : Command → Type 0) (host : Host) where
  started-Extends :
      (p : Process) (w w' : World) (r : Outcome String (Unit {0}))
      → Extends P w w'
      → Extends P w (started p w w' r).1
  started-Extends p w w' (success done) h = h
  started-Extends p w w' (fail e) h = Extends-same P w w refl
  started-Extends p w w' panics h = Extends-same P w w refl

  pub spawn-Adds : (command : Command) → P command → Adds P (spawn host command)
  unfolding spawn
  spawn-Adds command p = record {
    added = λ w.
        let w' = record w { spawned = w.spawned ++ (command ∷ []) } in
        started-Extends (host.process w') w w' (host.process w').starts
          (command ∷ [], refl, (p, tt));
  }

module _ {E A B : Type 0} where
  continue-success :
      (next : A → Io E B) (r : Outcome E A × World) {b : B}
      → (continue next r).0 ≡ success b
      → (a : A) × (v : World) × (r ≡ (success a, v)) × (continue next r ≡ (next a).run v)
  continue-success next (fail e, v) h = cc
  continue-success next (panics, v) h = cc
  continue-success next (success a, v) h = (a, v, refl, refl)

  -- A chain's success, one step at a time.
  pub bind-success :
      (m : Io E A) (next : A → Io E B) (w : World) {b : B}
      → ((m >>= next).run w).0 ≡ success b
      → (a : A) × (v : World) × (m.run w ≡ (success a, v))
        × ((m >>= next).run w ≡ (next a).run v)
        × (((next a).run v).0 ≡ success b)
  unfolding ◌>>=◌
  bind-success m next w h =
      let (a, v, e, same) = continue-success next (m.run w) h in
      (a, v, e, same, ap (λ (r : Outcome E B × World). r.0) (sym same) ∙ h)

module _ {E B : Type 0} where
  pub seq-success :
      (m : Io E (Unit {0})) (next : Io E B) (w : World) {b : B}
      → ((m >> next).run w).0 ≡ success b
      → (v : World) × (m.run w ≡ (success tt, v))
        × ((m >> next).run w ≡ next.run v)
        × ((next.run v).0 ≡ success b)
  unfolding ◌>>◌
  seq-success m next w h =
      let (a, v, e, same) = continue-success (λ done. next) (m.run w) h in
      (v, e, same, ap (λ (r : Outcome E B × World). r.0) (sym same) ∙ h)

module _ {E A : Type 0} where
  -- The parts of a step's result.
  pub outcome-eq : {r s : Outcome E A × World} → r ≡ s → r.0 ≡ s.0
  outcome-eq e = ap (λ (r : Outcome E A × World). r.0) e

  pub world-eq : {r s : Outcome E A × World} → r ≡ s → r.1 ≡ s.1
  world-eq e = ap (λ (r : Outcome E A × World). r.1) e

  success_injective : {a b : A} → ◌≡◌ {A = Outcome E A} (success a) (success b) → a ≡ b
  success_injective e = cc

  pub lift-success :
      (m : Outcome E A) (w v : World) (a : A)
      → (lift m).run w ≡ (success a, v)
      → (m ≡ success a) × (v ≡ w)
  unfolding lift
  lift-success m w v a h = (outcome-eq h, sym (world-eq h))

  pub lift-run : (m : Outcome E A) (w : World) → (lift m).run w ≡ (m, w)
  unfolding lift
  lift-run m w = refl

module _ {E F A : Type 0} (f : E → F) where
  map_err-success : (r : Outcome E A) (a : A) → map_err f r ≡ success a → r ≡ success a
  map_err-success (fail e) a h = cc
  map_err-success (success b) a h = cc
  map_err-success panics a h = cc

  pub wrap_err-success :
      (m : Io E A) (w v : World) (a : A)
      → (wrap_err f m).run w ≡ (success a, v)
      → m.run w ≡ (success a, v)
  unfolding wrap_err
  wrap_err-success m w v a h =
      ap₂ (λ (r : Outcome E A) (u : World). (r, u)) (map_err-success (m.run w).0 a (outcome-eq h))
        (world-eq h)

pub unique_id-success :
    {E : Type 0} (host : Host) (prefix name : String) (w v : World)
    → (unique_id host {E = E} prefix).run w ≡ (success name, v)
    → v.spawned ≡ w.spawned
unfolding unique_id
unique_id-success host prefix name w v h = ap (λ (u : World). u.spawned) (sym (world-eq h))

module _ (host : Host) where
  started-success :
      (p q : Process) (w w' v : World) (r : Outcome String (Unit {0}))
      → started p w w' r ≡ (success q, v)
      → (q ≡ p) × (v ≡ w')
  started-success p q w w' v (success done) h =
      (sym (success_injective (outcome-eq h)), sym (world-eq h))
  started-success p q w w' v (fail e) h = absurd (cc (outcome-eq h))
  started-success p q w w' v panics h = absurd (cc (outcome-eq h))

  pub spawn-success :
      (command : Command) (w v : World) (p : Process)
      → (spawn host command).run w ≡ (success p, v)
      → (v ≡ record w { spawned = w.spawned ++ (command ∷ []) }) × (p ≡ host.process v)
  unfolding spawn
  spawn-success command w v p h =
      let w' = record w { spawned = w.spawned ++ (command ∷ []) } in
      let (same, there) = started-success (host.process w') p w w' v (host.process w').starts h in
      (there, same ∙ ap host.process (sym there))
