-- ===== src/Server/Threads/Owners.antt =====
-- Which connection each entry of the registry belongs to, while the threads interleave.
pub mod Entry
pub mod Steps
pub mod Given
pub mod Run
use cm108_driver_rust.Base.{
  ℕ, ◌+◌, ◌%◌, ◌^◌, ◌≤◌, ◌<◌, ◌≡◌, ◌≢◌, refl, sym, ap, ◌∙◌, subst, Bool, true, false, List, ◌==◌,
  ==_ne, ==_refl, ℕ_discrete, if◌then◌else◌, if-true, if-false, arith, mod-eq_of_lt,
}
use cm108_driver_rust.Registry.{
  ClientHandle, ClientRegistry, allocate_id, register, unregister, get, insert, remove,
  connected_client, connect, disconnect, apply,
}
use cm108_driver_rust.Registry.Inv.{IsRegistry}
use cm108_driver_rust.Server.Threads.{
  Pc, accepted, allocated, registered, gone, Connection, id_of, is_registered, update,
}
use cm108_driver_rust.Server.Threads.Update.{update-same, update-other}
use cm108_driver_rust.Server.Threads.Keys.{
  is_some, has, has-insert, has-remove_self, has-remove_other, SameKeys,
}

abbrev pub is_named : Pc → Bool
is_named accepted = false
is_named _ = true

-- The registry is valid and has exactly the identifiers of the connections between `register` and
-- `unregister`. Identifiers are given out from 1 on, and no two connections have the same.
pub record Owned (cs : ℕ → Connection) (r : ClientRegistry) : Type 0 where
  pub valid : IsRegistry r
  pub given : (k : ℕ) → id_of (cs k).pc < r.next_id
  pub named : (k : ℕ) → is_named (cs k).pc ≡ true → 1 ≤ id_of (cs k).pc
  pub distinct : (j k : ℕ) → 1 ≤ id_of (cs j).pc → id_of (cs j).pc ≡ id_of (cs k).pc → j ≡ k
  pub found : (k : ℕ) → is_registered (cs k).pc ≡ true → has (id_of (cs k).pc) r ≡ true
  pub owner :
      (i : ℕ) → has i r ≡ true → (k : ℕ) × (is_registered (cs k).pc ≡ true) × (id_of (cs k).pc ≡ i)

-- Two places in the code that the invariant does not tell apart.
pub record Alike (p q : Pc) : Type 0 where
  pub id : id_of q ≡ id_of p
  pub in_it : is_registered q ≡ is_registered p
  pub name : is_named q ≡ is_named p

pub alike : (p : Pc) → Alike p p
alike p = record { id = refl; in_it = refl; name = refl }

-- A step that leaves every connection at such a place, and the identifiers alone.
pub quiet-Owned :
    (cs cs' : ℕ → Connection) (r r' : ClientRegistry)
    → ((j : ℕ) → Alike (cs j).pc (cs' j).pc)
    → SameKeys r r'
    → IsRegistry r'
    → Owned cs r
    → Owned cs' r'
quiet-Owned cs cs' r r' near same v h = record {
  valid = v;
  given = λ k. omega (arith, h.given k, (near k).id, same.next);
  named = λ k e. omega (arith, h.named k (sym (near k).name ∙ e), (near k).id);
  distinct =
      λ j k p e. h.distinct j k (omega (arith, p, (near j).id)) (sym (near j).id ∙ e ∙ (near k).id);
  found = λ k e.
      ap (λ (n : ℕ). has n r') (near k).id
      ∙ same.keys (id_of (cs k).pc)
      ∙ h.found k (sym (near k).in_it ∙ e);
  owner = λ i e.
      let (k, reg, at) = h.owner i (sym (same.keys i) ∙ e) in
      (k, (near k).in_it ∙ reg, (near k).id ∙ at);
}

-- What holds of the connections behind an update.
pub at_update :
    (cs : ℕ → Connection) (k : ℕ) (c : Connection) (P : Connection → Type 0) (j : ℕ)
    → (j ≡ k → P c)
    → (j ≢ k → P (cs j))
    → P (update cs k c j)
at_update cs k c P j here there = elim (ℕ_discrete j k) [
  | yes e ↦ subst P (sym (ap (update cs k c) e ∙ update-same cs k c)) (here e)
  | no ne ↦ subst P (sym (update-other cs k c j ne)) (there ne)
]

-- A connection that steps to another place with its identifier.
pub near_update :
    (cs : ℕ → Connection) (k : ℕ) (c : Connection)
    → Alike (cs k).pc c.pc
    → (j : ℕ) → Alike (cs j).pc (update cs k c j).pc
near_update cs k c near j =
    at_update cs k c (λ d. Alike (cs j).pc d.pc) j
      (λ e. subst (λ n. Alike (cs n).pc c.pc) (sym e) near) (λ ne. alike (cs j).pc)

-- The other connections behind the step of one that is not registered.
kept_owner :
    (cs : ℕ → Connection) (k i : ℕ) (c : Connection) (r : ClientRegistry)
    → is_registered (cs k).pc ≡ false
    → Owned cs r
    → has i r ≡ true
    → (l : ℕ) × (is_registered (update cs k c l).pc ≡ true) × (id_of (update cs k c l).pc ≡ i)
kept_owner cs k i c r out h e =
    let (l, reg, at) = h.owner i e in
    let ne : l ≢ k =
      λ (same : l ≡ k). cc (sym out ∙ ap (λ (n : ℕ). is_registered (cs n).pc) (sym same) ∙ reg) in
    let stays : update cs k c l ≡ cs l = update-other cs k c l ne in
    (
      l,
      ap (λ (d : Connection). is_registered d.pc) stays ∙ reg,
      ap (λ (d : Connection). id_of d.pc) stays ∙ at,
    )

-- `allocate_id`.
pub allocate-Owned :
    (cs : ℕ → Connection) (k : ℕ) (c : Connection) (r : ClientRegistry)
    → (cs k).pc ≡ accepted
    → c.pc ≡ allocated r.next_id
    → r.next_id + 1 < 2 ^ 64
    → IsRegistry (allocate_id r).1
    → Owned cs r
    → Owned (update cs k c) (allocate_id r).1
unfolding allocate_id
allocate-Owned cs k c r from to room v h =
    let next : (r.next_id + 1) % 2 ^ 64 ≡ r.next_id + 1 = mod-eq_of_lt room in
    let id : id_of c.pc ≡ r.next_id = ap id_of to ∙ unfold id_of in refl in
    let out : is_registered c.pc ≡ false = ap is_registered to ∙ unfold is_registered in refl in
    let was_out : is_registered (cs k).pc ≡ false =
      ap is_registered from ∙ unfold is_registered in refl in
    record {
      valid = v;
      given = λ j.
          at_update cs k c (λ d. id_of d.pc < (r.next_id + 1) % 2 ^ 64) j
            (λ _. omega (arith, id, next)) (λ _. omega (arith, next, h.given j));
      named = λ j.
          at_update cs k c (λ d. is_named d.pc ≡ true → 1 ≤ id_of d.pc) j
            (λ _ _. omega (arith, id, h.valid.positive)) (λ _. h.named j);
      distinct = λ j l.
          at_update cs k c (λ d. 1 ≤ id_of d.pc → id_of d.pc ≡ id_of (update cs k c l).pc → j ≡ l) j
            (λ ej.
              at_update cs k c (λ d. 1 ≤ id_of c.pc → id_of c.pc ≡ id_of d.pc → j ≡ l) l
                (λ el _ _. ej ∙ sym el) (λ _ _ e. absurd (omega (arith, id, e, h.given l))))
            (λ _.
              at_update cs k c (λ d. 1 ≤ id_of (cs j).pc → id_of (cs j).pc ≡ id_of d.pc → j ≡ l) l
                (λ _ _ e. absurd (omega (arith, id, e, h.given j))) (λ _. h.distinct j l));
      found = λ j.
          at_update cs k c (λ d. is_registered d.pc ≡ true → has (id_of d.pc) r ≡ true) j
            (λ _ e. cc (sym out ∙ e)) (λ _. h.found j);
      owner = λ i e. kept_owner cs k i c r was_out h e;
    }
