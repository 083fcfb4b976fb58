-- ===== src/Write/PbBuilder/Decode/Named.antt =====
-- Tags and fields that are numbered through a dictionary read back through its names.
use incubator_horaedb_client.Prelude.{
  ℕ, suc, ◌+◌, ◌≤◌, ◌≡◌, refl, some, List, [], ◌∷◌, Text, length, All, arith,
}
use incubator_horaedb_client.Prelude.BTreeMap.{BTreeMap}
use incubator_horaedb_client.Model.Value.{Value}
use incubator_horaedb_client.Model.Value.InRange.{InRange}
use incubator_horaedb_client.Model.Value.Proto.RoundTrip.{from_pb-to_pb}
use incubator_horaedb_client.Write.PbBuilder.{NamedPb, build_named}
use incubator_horaedb_client.Write.PbBuilder.Names
use incubator_horaedb_client.Write.PbBuilder.Names.{NameDict}
use incubator_horaedb_client.Write.PbBuilder.Names.Numbering.{
  names, IsValid, Extends, insert-Inserted,
}
use incubator_horaedb_client.Write.PbBuilder.Decode.{decode_named}

abbrev pub ValuesInRange : BTreeMap Text Value → Type 0
ValuesInRange = All (λ e. InRange e.1)

pub IsValid-mono : (a b : ℕ) (d : NameDict) → b ≤ a → IsValid a d → IsValid b d
IsValid-mono a b d h v = record {
  numbered = v.numbered;
  counted = v.counted;
  fits = omega (arith, v.fits);
}

-- A list of names and values went through the dictionary `d`.
pub record Named (room : ℕ) (d : NameDict) (entries : BTreeMap Text Value)
    (r : List NamedPb × NameDict) : Type 0 where
  pub valid : IsValid room r.1
  pub kept : Extends (names d.dict) (names r.1.dict)
  pub decodes : (ns : List Text) → Extends (names r.1.dict) ns → decode_named ns r.0 ≡ some entries

pub build_named-Named :
    (room : ℕ) (d : NameDict) (entries : BTreeMap Text Value)
    → IsValid (length entries + room) d
    → ValuesInRange entries
    → Named room d entries (build_named d entries)
unfolding build_named decode_named
build_named-Named room d [] v h = record {
  valid = IsValid-mono (0 + room) room d (omega arith) v;
  kept = λ i n k. k;
  decodes = λ ns k. refl;
}
build_named-Named room d ((name, val) ∷ rest) v (here, h) =
    let first =
      insert-Inserted (length rest + room) d name
        (IsValid-mono (suc (length rest) + room) (suc (length rest + room)) d (omega arith) v) in
    let later = build_named-Named room (Names.insert d name).1 rest first.valid h in
    record {
      valid = later.valid;
      kept = λ i n k. later.kept i n (first.kept i n k);
      decodes = λ ns k.
          ground (
            arith,
            k _ _ (later.kept _ _ first.placed),
            later.decodes ns k,
            from_pb-to_pb val here,
          );
    }
