-- ===== src/Registry/Map.antt =====
-- The operations of the hash map: what they keep of every entry, and what a lookup finds behind
-- them.
use cm108_driver_rust.Base.{
  ℕ, ◌≡◌, ◌≢◌, refl, sym, ap, ◌∙◌, List, [], ◌∷◌, ◌++◌, Option, if◌then◌else◌, none, some, ◌==◌,
  ==_eq, ==_ne, ℕ_discrete, map, All, if-true, if-false, subst,
}
use cm108_driver_rust.Registry.{ClientHandle, insert, remove, get, modify}

abbrev pub on_some : {A B : Type 0} → (A → B) → Option A → Option B
on_some f none = none
on_some f (some a) = some (f a)

pub on_some-id : {A : Type 0} (o : Option A) → o ≡ on_some (λ a. a) o
on_some-id none = refl
on_some-id (some a) = refl

module _ (P : ClientHandle → Type 0) where
  pub All-insert :
      (h : ClientHandle) (cs : List ClientHandle) → P h → All P cs → All P (insert h cs)
  unfolding insert
  All-insert h [] p ps = (p, tt)
  All-insert h (c ∷ cs) p (pc, ps) = elim (ℕ_discrete c.id h.id) [
    | yes same ↦ rw (==_eq c.id h.id same) (p, ps)
    | no other ↦ rw (==_ne c.id h.id other) (pc, All-insert h cs p ps)
  ]

  pub All-remove : (i : ℕ) (cs : List ClientHandle) → All P cs → All P (remove i cs)
  unfolding remove
  All-remove i [] ps = tt
  All-remove i (c ∷ cs) (pc, ps) = elim (ℕ_discrete c.id i) [
    | yes same ↦ rw (==_eq c.id i same) ps
    | no other ↦ rw (==_ne c.id i other) (pc, All-remove i cs ps)
  ]

  module _ (f : ClientHandle → ClientHandle) (keeps : (c : ClientHandle) → P c → P (f c)) where
    pub All-modify : (i : ℕ) (cs : List ClientHandle) → All P cs → All P (modify i f cs)
    unfolding modify
    All-modify i [] ps = tt
    All-modify i (c ∷ cs) (pc, ps) = elim (ℕ_discrete c.id i) [
      | yes same ↦ rw (==_eq c.id i same) (keeps c pc, ps)
      | no other ↦ rw (==_ne c.id i other) (pc, All-modify i cs ps)
    ]

    pub All-map : (cs : List ClientHandle) → All P cs → All P (map f cs)
    All-map [] ps = tt
    All-map (c ∷ cs) (pc, ps) = (keeps c pc, All-map cs ps)

-- No two entries have one key.
abbrev pub Differs : ℕ → ClientHandle → Type 0
Differs i c = c.id ≢ i

abbrev pub Distinct : List ClientHandle → Type 0
Distinct [] = Unit
Distinct (c ∷ cs) = All (Differs c.id) cs × Distinct cs

pub insert-Distinct :
    (h : ClientHandle) (cs : List ClientHandle) → Distinct cs → Distinct (insert h cs)
unfolding insert
insert-Distinct h [] d = (tt, tt)
insert-Distinct h (c ∷ cs) (ne, d) = elim (ℕ_discrete c.id h.id) [
  | yes same ↦ rw (==_eq c.id h.id same) (subst (λ i. All (Differs i) cs) same ne, d)
  | no other ↦
      rw (==_ne c.id h.id other)
        (All-insert (Differs c.id) h cs (λ e. other (sym e)) ne, insert-Distinct h cs d)
]

pub remove-Distinct : (i : ℕ) (cs : List ClientHandle) → Distinct cs → Distinct (remove i cs)
unfolding remove
remove-Distinct i [] d = tt
remove-Distinct i (c ∷ cs) (ne, d) = elim (ℕ_discrete c.id i) [
  | yes same ↦ rw (==_eq c.id i same) d
  | no other ↦ rw (==_ne c.id i other) (All-remove (Differs c.id) i cs ne, remove-Distinct i cs d)
]

pub get_here :
    (i : ℕ) (c : ClientHandle) (cs : List ClientHandle) → c.id ≡ i → get i (c ∷ cs) ≡ some c
unfolding get
get_here i c cs e = if-true (some c) (get i cs) (==_eq c.id i e)

pub get_there :
    (i : ℕ) (c : ClientHandle) (cs : List ClientHandle) → c.id ≢ i → get i (c ∷ cs) ≡ get i cs
unfolding get
get_there i c cs ne = if-false (some c) (get i cs) (==_ne c.id i ne)

get_cons :
    (j : ℕ) (c : ClientHandle) (cs ds : List ClientHandle)
    → get j cs ≡ get j ds
    → get j (c ∷ cs) ≡ get j (c ∷ ds)
unfolding get
get_cons j c cs ds e = ap (λ (o : Option ClientHandle). if c.id == j then some c else o) e

-- A change that leaves the key alone.
module _ (f : ClientHandle → ClientHandle) (same_id : (c : ClientHandle) → (f c).id ≡ c.id) where
  keeps_Differs : (i : ℕ) (c : ClientHandle) → Differs i c → Differs i (f c)
  keeps_Differs i c ne e = ne (sym (same_id c) ∙ e)

  pub modify-Distinct : (i : ℕ) (cs : List ClientHandle) → Distinct cs → Distinct (modify i f cs)
  unfolding modify
  modify-Distinct i [] d = tt
  modify-Distinct i (c ∷ cs) (ne, d) = elim (ℕ_discrete c.id i) [
    | yes same ↦ rw (==_eq c.id i same) (subst (λ k. All (Differs k) cs) (sym (same_id c)) ne, d)
    | no other ↦
        rw (==_ne c.id i other)
          (All-modify (Differs c.id) f (keeps_Differs c.id) i cs ne, modify-Distinct i cs d)
  ]

  pub map-Distinct : (cs : List ClientHandle) → Distinct cs → Distinct (map f cs)
  map-Distinct [] d = tt
  map-Distinct (c ∷ cs) (ne, d) = (
    subst (λ k. All (Differs k) (map f cs)) (sym (same_id c))
        (All-map (Differs c.id) f (keeps_Differs c.id) cs ne),
    map-Distinct cs d,
  )

  pub get-map : (i : ℕ) (cs : List ClientHandle) → get i (map f cs) ≡ on_some f (get i cs)
  unfolding get
  get-map i [] = refl
  get-map i (c ∷ cs) = elim (ℕ_discrete c.id i) [
    | yes same ↦
        get_here i (f c) (map f cs) (same_id c ∙ same) ∙ ap (on_some f) (sym (get_here i c cs same))
    | no other ↦
        get_there i (f c) (map f cs) (keeps_Differs i c other)
        ∙ get-map i cs
        ∙ ap (on_some f) (sym (get_there i c cs other))
  ]

  modify_here :
      (i : ℕ) (c : ClientHandle) (cs : List ClientHandle)
      → c.id ≡ i
      → modify i f (c ∷ cs) ≡ f c ∷ cs
  unfolding modify
  modify_here i c cs e = if-true (f c ∷ cs) (c ∷ modify i f cs) (==_eq c.id i e)

  modify_there :
      (i : ℕ) (c : ClientHandle) (cs : List ClientHandle)
      → c.id ≢ i
      → modify i f (c ∷ cs) ≡ c ∷ modify i f cs
  unfolding modify
  modify_there i c cs ne = if-false (f c ∷ cs) (c ∷ modify i f cs) (==_ne c.id i ne)

  pub get-modify_same :
      (i : ℕ) (cs : List ClientHandle) → get i (modify i f cs) ≡ on_some f (get i cs)
  get-modify_same i [] = unfold get modify in refl
  get-modify_same i (c ∷ cs) = elim (ℕ_discrete c.id i) [
    | yes same ↦
        ap (get i) (modify_here i c cs same)
        ∙ get_here i (f c) cs (same_id c ∙ same)
        ∙ ap (on_some f) (sym (get_here i c cs same))
    | no other ↦
        ap (get i) (modify_there i c cs other)
        ∙ get_there i c (modify i f cs) other
        ∙ get-modify_same i cs
        ∙ ap (on_some f) (sym (get_there i c cs other))
  ]

  pub get-modify_other :
      (i j : ℕ) (cs : List ClientHandle) → j ≢ i → get j (modify i f cs) ≡ get j cs
  get-modify_other i j [] ne = unfold modify in refl
  get-modify_other i j (c ∷ cs) ne = elim (ℕ_discrete c.id i) [
    | yes same ↦
        let away : c.id ≢ j = λ e. ne (sym e ∙ same) in
        ap (get j) (modify_here i c cs same)
        ∙ get_there j (f c) cs (keeps_Differs j c away)
        ∙ sym (get_there j c cs away)
    | no other ↦
        ap (get j) (modify_there i c cs other) ∙ get_cons j c _ _ (get-modify_other i j cs ne)
  ]

-- A new key.
pub get_absent : (i : ℕ) (cs : List ClientHandle) → All (Differs i) cs → get i cs ≡ none
get_absent i [] h = unfold get in refl
get_absent i (c ∷ cs) (ne, h) = get_there i c cs ne ∙ get_absent i cs h

pub insert_new :
    (h : ClientHandle) (cs : List ClientHandle) → All (Differs h.id) cs → insert h cs ≡ cs ++ h ∷ []
unfolding insert
insert_new h [] d = refl
insert_new h (c ∷ cs) (ne, d) =
    if-false (h ∷ cs) (c ∷ insert h cs) (==_ne c.id h.id ne) ∙ ap (λ l. c ∷ l) (insert_new h cs d)

pub get-append_other :
    (j : ℕ) (h : ClientHandle) (cs : List ClientHandle) → h.id ≢ j → get j (cs ++ h ∷ []) ≡ get j cs
get-append_other j h [] ne = get_there j h [] ne
get-append_other j h (c ∷ cs) ne = get_cons j c _ _ (get-append_other j h cs ne)

pub get-append_new :
    (h : ClientHandle) (cs : List ClientHandle)
    → All (Differs h.id) cs
    → get h.id (cs ++ h ∷ []) ≡ some h
get-append_new h [] d = get_here h.id h [] refl
get-append_new h (c ∷ cs) (ne, d) = get_there h.id c (cs ++ h ∷ []) ne ∙ get-append_new h cs d

-- A key that is taken out.
pub remove-Differs : (i : ℕ) (cs : List ClientHandle) → Distinct cs → All (Differs i) (remove i cs)
unfolding remove
remove-Differs i [] d = tt
remove-Differs i (c ∷ cs) (ne, d) = elim (ℕ_discrete c.id i) [
  | yes same ↦ rw (==_eq c.id i same) (subst (λ k. All (Differs k) cs) same ne)
  | no other ↦ rw (==_ne c.id i other) (other, remove-Differs i cs d)
]

pub get-remove_other : (i j : ℕ) (cs : List ClientHandle) → j ≢ i → get j (remove i cs) ≡ get j cs
unfolding remove
get-remove_other i j [] ne = refl
get-remove_other i j (c ∷ cs) ne = elim (ℕ_discrete c.id i) [
  | yes same ↦
      ap (get j) (if-true cs (c ∷ remove i cs) (==_eq c.id i same))
      ∙ sym (get_there j c cs (λ e. ne (sym e ∙ same)))
  | no other ↦
      ap (get j) (if-false cs (c ∷ remove i cs) (==_ne c.id i other))
      ∙ get_cons j c _ _ (get-remove_other i j cs ne)
]
