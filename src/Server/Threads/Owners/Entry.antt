-- ===== src/Server/Threads/Owners/Entry.antt =====
-- A connection enters the registry, and leaves it.
use cm108_driver_rust.Base.{
  ℕ, ◌≤◌, ◌<◌, ◌≡◌, ◌≢◌, refl, sym, ap, ◌∙◌, true, false, ==_ne, ==_refl, ℕ_discrete, if-true,
  if-false, arith,
}
use cm108_driver_rust.Registry.{ClientRegistry, register, unregister, connected_client}
use cm108_driver_rust.Registry.Inv.{IsRegistry}
use cm108_driver_rust.Server.Threads.{
  allocated, registered, closing, gone, Connection, id_of, is_registered, update,
}
use cm108_driver_rust.Server.Threads.Update.{update-same, update-other}
use cm108_driver_rust.Server.Threads.Keys.{has, has-insert, has-remove_self, has-remove_other}
use cm108_driver_rust.Server.Threads.Owners.{is_named, Owned, at_update, kept_owner}

has-register_self : (i : ℕ) (r : ClientRegistry) → has i (register (connected_client i) r) ≡ true
unfolding register connected_client
has-register_self i r = has-insert (connected_client i) i r.clients ∙ if-true true _ (==_refl i)

has-register_other :
    (i j : ℕ) (r : ClientRegistry) → j ≢ i → has j (register (connected_client i) r) ≡ has j r
unfolding register connected_client
has-register_other i j r ne =
    has-insert (connected_client i) j r.clients ∙ if-false true _ (==_ne i j (λ e. ne (sym e)))

-- An identifier of its own in place of its earlier one.
module _ (cs : ℕ → Connection) (k : ℕ) (c : Connection) (r r' : ClientRegistry)
    (same_next : r'.next_id ≡ r.next_id) (valid' : IsRegistry r')
    (id : id_of c.pc ≡ id_of (cs k).pc) (mine : 1 ≤ id_of (cs k).pc) (h : Owned cs r) where
  id_at : (j : ℕ) → id_of (update cs k c j).pc ≡ id_of (cs j).pc
  id_at j =
      at_update cs k c (λ d. id_of d.pc ≡ id_of (cs j).pc) j
        (λ e. id ∙ ap (λ (n : ℕ). id_of (cs n).pc) (sym e)) (λ _. refl)

  given' : (j : ℕ) → id_of (update cs k c j).pc < r'.next_id
  given' j = omega (arith, id_at j, same_next, h.given j)

  named' : (j : ℕ) → is_named (update cs k c j).pc ≡ true → 1 ≤ id_of (update cs k c j).pc
  named' j =
      at_update cs k c (λ d. is_named d.pc ≡ true → 1 ≤ id_of d.pc) j (λ _ _. omega (arith, id))
        (λ _. h.named j)

  distinct' :
      (j l : ℕ)
      → 1 ≤ id_of (update cs k c j).pc
      → id_of (update cs k c j).pc ≡ id_of (update cs k c l).pc
      → j ≡ l
  distinct' j l p e = h.distinct j l (omega (arith, p, id_at j)) (sym (id_at j) ∙ e ∙ id_at l)

  -- `register`.
  entered-Owned :
      is_registered c.pc ≡ true
      → is_registered (cs k).pc ≡ false
      → has (id_of (cs k).pc) r' ≡ true
      → ((j : ℕ) → j ≢ id_of (cs k).pc → has j r' ≡ has j r)
      → Owned (update cs k c) r'
  entered-Owned in_it was_out self others = record {
    valid = valid';
    given = given';
    named = named';
    distinct = distinct';
    found = λ j.
        at_update cs k c (λ d. is_registered d.pc ≡ true → has (id_of d.pc) r' ≡ true) j
          (λ _ _. ap (λ (n : ℕ). has n r') id ∙ self)
          (λ ne e.
            others (id_of (cs j).pc) (λ same. ne (sym (h.distinct k j mine (sym same))))
            ∙ h.found j e);
    owner = λ i e. elim (ℕ_discrete i (id_of (cs k).pc)) [
      | yes same ↦ (
        k,
        ap (λ (d : Connection). is_registered d.pc) (update-same cs k c) ∙ in_it,
        ap (λ (d : Connection). id_of d.pc) (update-same cs k c) ∙ id ∙ sym same,
      )
      | no ne ↦ kept_owner cs k i c r was_out h (sym (others i ne) ∙ e)
    ];
  }

  -- `unregister`.
  left-Owned :
      is_registered c.pc ≡ false
      → has (id_of (cs k).pc) r' ≡ false
      → ((j : ℕ) → j ≢ id_of (cs k).pc → has j r' ≡ has j r)
      → Owned (update cs k c) r'
  left-Owned out self others = record {
    valid = valid';
    given = given';
    named = named';
    distinct = distinct';
    found = λ j.
        at_update cs k c (λ d. is_registered d.pc ≡ true → has (id_of d.pc) r' ≡ true) j
          (λ _ e. cc (sym out ∙ e))
          (λ ne e.
            others (id_of (cs j).pc) (λ same. ne (sym (h.distinct k j mine (sym same))))
            ∙ h.found j e);
    owner = λ i e.
        let ne : i ≢ id_of (cs k).pc =
          λ (same : i ≡ id_of (cs k).pc). cc (sym self ∙ ap (λ (n : ℕ). has n r') (sym same) ∙ e) in
        let (l, reg, at) = h.owner i (sym (others i ne) ∙ e) in
        let other : l ≢ k = λ (same : l ≡ k). ne (sym at ∙ ap (λ (n : ℕ). id_of (cs n).pc) same) in
        let stays : update cs k c l ≡ cs l = update-other cs k c l other in
        (
          l,
          ap (λ (d : Connection). is_registered d.pc) stays ∙ reg,
          ap (λ (d : Connection). id_of d.pc) stays ∙ at,
        );
  }

pub register-Owned :
    (cs : ℕ → Connection) (k id : ℕ) (c : Connection) (r : ClientRegistry)
    → (cs k).pc ≡ allocated id
    → c.pc ≡ registered id
    → IsRegistry (register (connected_client id) r)
    → Owned cs r
    → Owned (update cs k c) (register (connected_client id) r)
unfolding id_of is_registered
register-Owned cs k id c r from to v h =
    let was : id_of (cs k).pc ≡ id = ap id_of from in
    let mine : 1 ≤ id_of (cs k).pc = h.named k (ap is_named from) in
    entered-Owned cs k c r _ (unfold register in refl) v (ap id_of to ∙ sym was) mine h
      (ap is_registered to) (ap is_registered from)
      (ap (λ (n : ℕ). has n (register (connected_client id) r)) was ∙ has-register_self id r)
      (λ j ne. has-register_other id j r (λ e. ne (e ∙ sym was)))

pub unregister-Owned :
    (cs : ℕ → Connection) (k id : ℕ) (c : Connection) (r : ClientRegistry)
    → (cs k).pc ≡ closing id
    → c.pc ≡ gone id
    → IsRegistry (unregister id r)
    → Owned cs r
    → Owned (update cs k c) (unregister id r)
unfolding id_of is_registered unregister
unregister-Owned cs k id c r from to v h =
    let was : id_of (cs k).pc ≡ id = ap id_of from in
    let mine : 1 ≤ id_of (cs k).pc = h.named k (ap is_named from) in
    left-Owned cs k c r _ refl v (ap id_of to ∙ sym was) mine h (ap is_registered to)
      (ap (λ (n : ℕ). has n (unregister id r)) was ∙ has-remove_self id r.clients h.valid.distinct)
      (λ j ne. has-remove_other id j r.clients (λ e. ne (e ∙ sym was)))
