-- ===== src/Write/PbBuilder/Names/Numbering.antt =====
-- `NameDict::insert` in src/model/write/request.rs numbers names by their positions.
use incubator_horaedb_client.Prelude.{
  ℕ, suc, ◌+◌, ◌%◌, ◌^◌, ◌<◌, ◌≡◌, ◌∙◌, refl, sym, ap, none, some, List, [], ◌∷◌, ◌++◌, Text,
  text_eq, text_beq_iff, length, length-append, get_elem?, get_elem?-middle, get_elem?-append,
  subst, arith, Option-cases, Bool-cases, inl, inr, text_beq,
}
use incubator_horaedb_client.Prelude.HashMap
use incubator_horaedb_client.Prelude.HashMap.{HashMap, HashOrder}
use incubator_horaedb_client.Write.PbBuilder.Names.{NameDict, insert}

-- The entries of the dictionary carry the numbers from `start` on.
abbrev pub IsNumbered : ℕ → HashMap Text ℕ → Type 0
IsNumbered start [] = Unit
IsNumbered start ((name, idx) ∷ m) = (idx ≡ start) × IsNumbered (suc start) m

abbrev pub names : HashMap Text ℕ → List Text
names [] = []
names ((name, idx) ∷ m) = name ∷ names m

-- `room` more names fit into the u32 counter.
pub record IsValid (room : ℕ) (d : NameDict) : Type 0 where
  pub numbered : IsNumbered 0 d.dict
  pub counted : d.name_idx ≡ length d.dict
  pub fits : length d.dict + room < 2 ^ 32

-- Every name keeps its place.
abbrev pub Extends : List Text → List Text → Type 0
Extends xs ys = (i : ℕ) (n : Text) → get_elem? xs i ≡ some n → get_elem? ys i ≡ some n

get_elem?-names :
    (start : ℕ) (m : HashMap Text ℕ) (name : Text) (idx : ℕ)
    → IsNumbered start m
    → HashMap.get name m ≡ some idx
    → (k : ℕ) × (idx ≡ start + k) × (get_elem? (names m) k ≡ some name)
unfolding HashMap.get
get_elem?-names start [] name idx h e = cc
get_elem?-names start ((n, i) ∷ m) name idx (here, h) e = elim (Bool-cases (text_beq n name)) [
  | inl same ↦ (0, ground (arith, same), ground (arith, same, text_beq_iff n name))
  | inr differ ↦
      let (k, place, found) = get_elem?-names (suc start) m name idx h (ground (arith, differ)) in
      (suc k, omega arith, found)
]

insert-fresh :
    (m : HashMap Text ℕ) (name : Text) (idx : ℕ)
    → HashMap.get name m ≡ none
    → HashMap.insert name idx m ≡ m ++ (name, idx) ∷ []
unfolding HashMap.get HashMap.insert
insert-fresh [] name idx e = refl
insert-fresh ((n, i) ∷ m) name idx e = ground (arith, insert-fresh m name idx)

IsNumbered-snoc :
    (start : ℕ) (m : HashMap Text ℕ) (name : Text) (idx : ℕ)
    → IsNumbered start m
    → idx ≡ start + length m
    → IsNumbered start (m ++ (name, idx) ∷ [])
IsNumbered-snoc start [] name idx h e = (omega arith, tt)
IsNumbered-snoc start ((n, i) ∷ m) name idx (here, h) e =
    (here, IsNumbered-snoc (suc start) m name idx h (omega arith))

names-snoc :
    (m : HashMap Text ℕ) (name : Text) (idx : ℕ)
    → names (m ++ (name, idx) ∷ []) ≡ names m ++ name ∷ []
names-snoc [] name idx = refl
names-snoc ((n, i) ∷ m) name idx = ap (λ r. n ∷ r) (names-snoc m name idx)

pub length-names : (m : HashMap Text ℕ) → length (names m) ≡ length m
length-names [] = refl
length-names (e ∷ m) = ap suc (length-names m)

-- What a call of `insert` gives: a dictionary that is still valid, the place of the name in it, and
-- all earlier names at their places.
pub record Inserted (room : ℕ) (d : NameDict) (name : Text) (r : ℕ × NameDict) : Type 0 where
  pub valid : IsValid room r.1
  pub placed : get_elem? (names r.1.dict) r.0 ≡ some name
  pub kept : Extends (names d.dict) (names r.1.dict)

Inserted-known :
    (room : ℕ) (d : NameDict) (name : Text) (idx : ℕ)
    → IsValid (suc room) d
    → HashMap.get name d.dict ≡ some idx
    → Inserted room d name (idx, d)
Inserted-known room d name idx v e =
    let (k, place, found) = get_elem?-names 0 d.dict name idx v.numbered e in
    record {
      valid = record { numbered = v.numbered; counted = v.counted; fits = omega (arith, v.fits) };
      placed = ap (get_elem? (names d.dict)) (omega arith) ∙ found;
      kept = λ i n h. h;
    }

Inserted-fresh :
    (room : ℕ) (d : NameDict) (name : Text)
    → IsValid (suc room) d
    → Inserted room d name (
      d.name_idx,
      record { dict = d.dict ++ (name, d.name_idx) ∷ []; name_idx = (d.name_idx + 1) % 2 ^ 32 },
    )
Inserted-fresh room d name v = record {
  valid = record {
    numbered = IsNumbered-snoc 0 d.dict name d.name_idx v.numbered (omega (arith, v.counted));
    counted = omega (arith, v.fits, v.counted, length-append d.dict ((name, d.name_idx) ∷ []));
    fits = omega (arith, v.fits, length-append d.dict ((name, d.name_idx) ∷ []));
  };
  placed =
      rw (v.counted, names-snoc, ← length-names d.dict) (get_elem?-middle (names d.dict) name []);
  kept = λ i n h. rw names-snoc (get_elem?-append (names d.dict) (name ∷ []) i h);
}

insert_of_known :
    (d : NameDict) (name : Text) (idx : ℕ)
    → HashMap.get name d.dict ≡ some idx
    → insert d name ≡ (idx, d)
unfolding insert
insert_of_known d name idx e = ground (arith, e)

insert_of_fresh :
    (d : NameDict) (name : Text)
    → HashMap.get name d.dict ≡ none
    → insert d name ≡ (
      d.name_idx,
      record { dict = d.dict ++ (name, d.name_idx) ∷ []; name_idx = (d.name_idx + 1) % 2 ^ 32 },
    )
unfolding insert
insert_of_fresh d name e = ground (arith, e, insert-fresh d.dict name d.name_idx e)

-- In a valid dictionary with room for one more name, a call of `insert` keeps the dictionary valid,
-- returns the position of the name in it, and moves no earlier name.
pub insert-Inserted :
    (room : ℕ) (d : NameDict) (name : Text)
    → IsValid (suc room) d
    → Inserted room d name (insert d name)
insert-Inserted room d name v = elim (Option-cases (HashMap.get name d.dict)) [
  | inl fresh ↦
      subst (Inserted room d name) (sym (insert_of_fresh d name fresh))
        (Inserted-fresh room d name v)
  | inr (idx, known) ↦
      subst (Inserted room d name) (sym (insert_of_known d name idx known))
        (Inserted-known room d name idx v known)
]
