-- ===== src/Write/PbBuilder/Names.antt =====
-- `NameDict` of src/model/write/request.rs: names numbered in the order of their first use.
pub mod Numbering
pub mod Conversion
use incubator_horaedb_client.Prelude.{
  ℕ, ◌+◌, ◌%◌, ◌^◌, Option, none, some, [], ◌∷◌, List, Text, text_eq, length, set, replicate, ltb,
  if◌then◌else◌,
}
use incubator_horaedb_client.Prelude.HashMap
use incubator_horaedb_client.Prelude.HashMap.{HashMap, HashOrder}

-- `name_idx` is a u32; its increment wraps in a release build.
pub record NameDict : Type 0 where
  pub dict : HashMap Text ℕ
  pub name_idx : ℕ

abbrev pub new : NameDict
new = record { dict = []; name_idx = 0 }

-- `entry(name).or_insert_with`: the number of the name, and the dictionary after the call.
unfoldable pub insert : NameDict → Text → ℕ × NameDict
insert d name = elim (HashMap.get name d.dict) [
  | some idx ↦ (idx, d)
  | none ↦ (
    d.name_idx,
    record { dict = HashMap.insert name d.name_idx d.dict; name_idx = (d.name_idx + 1) % 2 ^ 32 },
  )
]

-- The loop `ordered[idx as usize] = name`; `none` is the panic on an index out of bounds.
unfoldable pub write_names : List (Text × ℕ) → List Text → Option (List Text)
write_names [] ordered = some ordered
write_names ((name, idx) ∷ rest) ordered =
    let next = write_names rest (set ordered idx name) in
    if ltb idx (length ordered) then next else none

unfoldable pub convert_ordered : HashOrder Text ℕ → NameDict → Option (List Text)
unfolding write_names
convert_ordered order d = write_names (order.arrange d.dict) (replicate (length d.dict) [])
