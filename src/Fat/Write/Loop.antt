-- ===== src/Fat/Write/Loop.antt =====
-- The loop of `fs_write`: room for a byte, the byte, and all bytes.
use tos_sfsu_fall.Base.{
  ℕ, ◌+◌, ◌-◌, ◌*◌, ◌/◌, ◌%◌, ◌^◌, ◌≤◌, ◌<◌, ◌≡◌, ◌⊎◌, inl, inr, refl, sym, ◌∙◌, ap, subst, Bool,
  true, false, not, ◌&&◌, ◌==◌, Bool-cases, none, some, Option-cases, List, [], ◌∷◌, ◌++◌, length,
  get_or, length-append, append-nil, append_assoc, arith,
}
use tos_sfsu_fall.Kernel.State.{update}
use tos_sfsu_fall.Fat.{Volume, fs_get_free_cluster, append_cluster}
use tos_sfsu_fall.Fat.Chain.{last, linked_volume, append_cluster-found, append_cluster-none}
use tos_sfsu_fall.Fat.File.{
  FcbEntry, Room, room, full, make_room, flush_sector, write_bytes, minus, bytes_per_cluster,
}
use tos_sfsu_fall.Fat.Place.{IsFloppy, floppy-bytes}
use tos_sfsu_fall.Fat.Write.{IsOpen, IsWriting, flush_sector-saved}
use tos_sfsu_fall.Fat.Write.Link.{IsFull, linked-IsOpen, get_or-append}

-- A position at which the block is full.
abbrev is_boundary : ℕ → Bool
is_boundary pos = not (pos == 0) && pos % 512 == 0

make_room-inside :
    (v : Volume) (f : FcbEntry)
    → IsFloppy v.dev
    → is_boundary f.pos ≡ false
    → make_room v f ≡ room v f
unfolding make_room
make_room-inside v f d e =
    let test : (not (f.pos == 0) && f.pos % v.dev.bytes_per_sector == 0) ≡ false =
      ap (λ n. not (f.pos == 0) && f.pos % n == 0) d.sector ∙ e in
    rw test

make_room-boundary :
    (v : Volume) (f : FcbEntry)
    → IsFloppy v.dev
    → is_boundary f.pos ≡ true
    → make_room v f ≡ (elim (append_cluster (flush_sector v f) f.current_cluster) as (λ r. Room) [
      | none ↦ full (flush_sector v f)
      | some (cluster, v₂) ↦ room v₂ (record f { current_cluster = cluster })
    ])
unfolding make_room
make_room-boundary v f d e =
    let test : (not (f.pos == 0) && f.pos % v.dev.bytes_per_sector == 0) ≡ true =
      ap (λ n. not (f.pos == 0) && f.pos % n == 0) d.sector ∙ e in
    let inner : (f.pos % bytes_per_cluster v.dev == 0) ≡ true =
      ap (λ n. f.pos % n == 0) (floppy-bytes v.dev d) ∙ ground (arith, e) in
    rw (test, inner)

flushed-IsOpen :
    (k : ℕ) (v : Volume) (c : ℕ) (ds bs : List ℕ) (f : FcbEntry)
    → IsOpen k v c ds bs f
    → k * 512 ≤ length bs
    → IsOpen k (flush_sector v f) c ds bs f
unfolding flush_sector
flushed-IsOpen k v c ds bs f o low = record {
  bytes = o.bytes;
  floppy = o.floppy;
  chain = o.chain;
  distinct = o.distinct;
  clusters = o.clusters;
  first = o.first;
  current = o.current;
  pos = o.pos;
  size = o.size;
  blocks = o.blocks;
  saved = λ p h. flush_sector-saved k v c ds bs f p o (omega (arith, h, low)) (omega (arith, h));
  buffered = o.buffered;
}

get_or-length : (xs : List ℕ) (y : ℕ) → get_or (xs ++ (y ∷ [])) (length xs) 0 ≡ y
get_or-length [] y = refl
get_or-length (x ∷ xs) y = get_or-length xs y

-- The byte is put into the block.
abbrev put_byte : Volume → ℕ → FcbEntry → FcbEntry
put_byte v byte f = record f {
  sector = update f.sector (f.pos % v.dev.bytes_per_sector) byte;
  pos = (f.pos + 1) % 2 ^ 32;
  file_size = (f.file_size + 1) % 2 ^ 32;
}

put-IsWriting :
    (v : Volume) (c : ℕ) (ds bs : List ℕ) (f : FcbEntry) (byte : ℕ)
    → IsOpen (length bs / 512) v c ds bs f
    → length bs + 1 < 2 ^ 32
    → IsWriting v c ds (bs ++ (byte ∷ [])) (put_byte v byte f)
put-IsWriting v c ds bs f byte o small =
    let count = length-append bs (byte ∷ []) in
    let same : (length (bs ++ (byte ∷ [])) - 1) / 512 ≡ length bs / 512 = omega (arith, count) in
    record {
      bytes = o.bytes;
      floppy = o.floppy;
      chain = o.chain;
      distinct = o.distinct;
      clusters = o.clusters;
      first = o.first;
      current = o.current;
      pos = omega (arith, o.pos, count);
      size = omega (arith, o.size, count);
      blocks = o.blocks ∙ sym same;
      saved = λ p h.
          o.saved p (omega (arith, h, same))
          ∙ sym (get_or-append bs (byte ∷ []) p (omega (arith, h, same)));
      buffered = λ p low high.
          ap (λ n. update f.sector (f.pos % n) byte (p % 512)) o.floppy.sector
          ∙ elim (Bool-cases (p == length bs)) [
            | inl e ↦
                let here : p ≡ length bs = ground (arith, e) in
                let hit : (p % 512 == f.pos % 512) ≡ true = ground (arith, e, o.pos) in
                rw hit (
                  sym (get_or-length bs byte) ∙ ap (λ i. get_or (bs ++ (byte ∷ [])) i 0) (sym here))
            | inr n ↦
                let before : p < length bs = ground (arith, n, high, count) in
                let miss : (p % 512 == f.pos % 512) ≡ false =
                  ground (arith, o.pos, before, low, same) in
                rw miss (
                  o.buffered p (omega (arith, low, same)) before
                  ∙ sym (get_or-append bs (byte ∷ []) p before))
          ];
    }

-- Either there is room for the next byte, or no cluster is free.
abbrev MakesRoom : Volume → ℕ → (ds bs : List ℕ) → FcbEntry → Type 0
MakesRoom v c ds bs f =
    ((v₁ : Volume) × (ds₁ : List ℕ) × (f₁ : FcbEntry) × (make_room v f ≡ room v₁ f₁)
      × IsOpen (length bs / 512) v₁ c ds₁ bs f₁
      × (f₁.used ≡ f.used)
      × (f₁.seq ≡ f.seq))
    ⊎ ((v₁ : Volume) × (make_room v f ≡ full v₁)
        × IsWriting v₁ c ds bs f
        × (fs_get_free_cluster v₁.dev ≡ none))

module _ (v : Volume) (c : ℕ) (ds bs : List ℕ) (f : FcbEntry) (o : IsWriting v c ds bs f) where
  low : (length bs - 1) / 512 * 512 ≤ length bs
  low = omega arith

  flushed-IsFull :
      (x : ℕ)
      → is_boundary f.pos ≡ true
      → fs_get_free_cluster (flush_sector v f).dev ≡ some x
      → IsFull (flush_sector v f) c ds bs f x
  flushed-IsFull x e free =
      let g = flushed-IsOpen ((length bs - 1) / 512) v c ds bs f o low in
      let count : length bs ≡ (length ds + 1) * 512 = ground (arith, e, o.pos, o.blocks) in
      record {
        bytes = g.bytes;
        floppy = g.floppy;
        chain = g.chain;
        distinct = g.distinct;
        clusters = g.clusters;
        first = g.first;
        pos = g.pos;
        size = g.size;
        filled = count;
        saved = λ p h.
            flush_sector-saved ((length bs - 1) / 512) v c ds bs f p o h
              (omega (arith, h, count, o.blocks));
        free = free;
      }

  makes_room : MakesRoom v c ds bs f
  makes_room = elim (Bool-cases (is_boundary f.pos)) [
    | inr e ↦
        let same : (length bs - 1) / 512 ≡ length bs / 512 = ground (arith, e, o.pos) in
        inl (
          v,
          ds,
          f,
          make_room-inside v f o.floppy e,
          subst (λ k. IsOpen k v c ds bs f) same o,
          refl,
          refl,
        )
    | inl e ↦ elim (Option-cases (fs_get_free_cluster (flush_sector v f).dev)) [
      | inl none_free ↦ inr (
        flush_sector v f,
        make_room-boundary v f o.floppy e
            ∙ rw (append_cluster-none (flush_sector v f) f.current_cluster none_free),
        flushed-IsOpen ((length bs - 1) / 512) v c ds bs f o low,
        none_free,
      )
      | inr (x, free) ↦
          let next : length ds + 1 ≡ length bs / 512 = ground (arith, e, o.pos, o.blocks) in
          inl (
            linked_volume (flush_sector v f) (last c ds) x,
            ds ++ (x ∷ []),
            record f { current_cluster = x },
            make_room-boundary v f o.floppy e
                ∙ rw (append_cluster-found (flush_sector v f) f.current_cluster x free, o.current),
            subst
                (λ k.
                  IsOpen k (linked_volume (flush_sector v f) (last c ds) x) c (ds ++ (x ∷ [])) bs
                    (record f { current_cluster = x }))
                next (linked-IsOpen (flush_sector v f) c ds bs f x (flushed-IsFull x e free)),
            refl,
            refl,
          )
    ]
  ]

-- Writing `bytes` behind `bs`: all of them, or a part where no cluster is free any more.
pub record Writes (v : Volume) (c : ℕ) (bs bytes : List ℕ) (f : FcbEntry) : Type 0 where
  pub code : ℕ
  pub to_volume : Volume
  pub to_block : FcbEntry
  pub clusters : List ℕ
  pub written : List ℕ
  pub returns : write_bytes v bytes f ≡ (code, to_volume, to_block)
  pub writing : IsWriting to_volume c clusters written to_block
  pub outcome :
      ((code ≡ 0) × (written ≡ bs ++ bytes))
      ⊎ ((code ≡ minus 1)
          × (fs_get_free_cluster to_volume.dev ≡ none)
          × ((part rest : List ℕ) × (written ≡ bs ++ part)
              × (part ++ rest ≡ bytes)
              × (0 < length rest)))
  pub handle : (to_block.used ≡ f.used) × (to_block.seq ≡ f.seq)

write_bytes-room :
    (v v₁ : Volume) (byte : ℕ) (bytes : List ℕ) (f f₁ : FcbEntry)
    → make_room v f ≡ room v₁ f₁
    → write_bytes v (byte ∷ bytes) f ≡ write_bytes v₁ bytes (put_byte v₁ byte f₁)
unfolding write_bytes
write_bytes-room v v₁ byte bytes f f₁ e = rw (e, write_bytes)

write_bytes-full :
    (v v₁ : Volume) (byte : ℕ) (bytes : List ℕ) (f : FcbEntry)
    → make_room v f ≡ full v₁
    → write_bytes v (byte ∷ bytes) f ≡ (minus 1, v₁, f)
unfolding write_bytes
write_bytes-full v v₁ byte bytes f e = rw (e, write_bytes)

pub write_bytes-Writes :
    (bytes : List ℕ) (v : Volume) (c : ℕ) (ds bs : List ℕ) (f : FcbEntry)
    → IsWriting v c ds bs f
    → length bs + length bytes < 2 ^ 32
    → Writes v c bs bytes f
write_bytes-Writes [] v c ds bs f o small = record {
  code = 0;
  to_volume = v;
  to_block = f;
  clusters = ds;
  written = bs;
  returns = unfold write_bytes in refl;
  writing = o;
  outcome = inl (refl, sym (append-nil bs));
  handle = (refl, refl);
}
write_bytes-Writes (byte ∷ bytes) v c ds bs f o small = elim (makes_room v c ds bs f o) [
  | inl (v₁, ds₁, f₁, e, o₁, used, seq) ↦
      let count = length-append bs (byte ∷ []) in
      let shift : (bs ++ (byte ∷ [])) ++ bytes ≡ bs ++ (byte ∷ bytes) =
        append_assoc bs (byte ∷ []) bytes in
      let next =
        write_bytes-Writes bytes v₁ c ds₁ (bs ++ (byte ∷ [])) (put_byte v₁ byte f₁)
          (put-IsWriting v₁ c ds₁ bs f₁ byte o₁ (omega (arith, small)))
          (omega (arith, small, count)) in
      record {
        code = next.code;
        to_volume = next.to_volume;
        to_block = next.to_block;
        clusters = next.clusters;
        written = next.written;
        returns = write_bytes-room v v₁ byte bytes f f₁ e ∙ next.returns;
        writing = next.writing;
        outcome = elim next.outcome [
          | inl (z, w) ↦ inl (z, w ∙ shift)
          | inr (z, w, (part, rest, r, split, some_left)) ↦ inr (
            z,
            w,
            (
              byte ∷ part,
              rest,
              r ∙ append_assoc bs (byte ∷ []) part,
              ap (λ l. byte ∷ l) split,
              some_left,
            ),
          )
        ];
        handle = (next.handle.0 ∙ used, next.handle.1 ∙ seq);
      }
  | inr (v₁, e, o₁, none_free) ↦ record {
    code = minus 1;
    to_volume = v₁;
    to_block = f;
    clusters = ds;
    written = bs;
    returns = write_bytes-full v v₁ byte bytes f e;
    writing = o₁;
    outcome = inr (refl, none_free, ([], byte ∷ bytes, sym (append-nil bs), refl, omega arith));
    handle = (refl, refl);
  }
]
