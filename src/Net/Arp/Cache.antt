-- ===== src/Net/Arp/Cache.antt =====
-- The ARP cache of kernel/arp.c.
use tos_sfsu_fall.Base.{
  ◌≡◌, ◌≢◌, refl, ap, sym, ◌∙◌, Bool, true, false, not, ◌||◌, ◌&&◌, [], ◌∷◌, ◌==◌, length, arith,
  none, some, Bool-cases, inl, inr, suc,
}
use tos_sfsu_fall.Net.Bytes.{Buffer, memcmp, memcmp-eq, memcmp-ne, memcmp_refl, ip_len}
use tos_sfsu_fall.Net.Arp.{
  Entry, Table, replace_mac, fill_entry, arp_add_cache, arp_ip_to_mac, entry_initialized,
}

-- Some entry has the address; some entry is free.
abbrev pub known : Table → Buffer → Bool
known [] ip = false
known (e ∷ t) ip = memcmp e.ip ip ip_len || known t ip

abbrev pub has_free : Table → Bool
has_free [] = false
has_free (e ∷ t) = not (e.init == entry_initialized) || has_free t

-- The address of no free entry is `ip`. (`arp_ip_to_mac` does not ask whether an entry is free.)
abbrev pub free_apart : Table → Buffer → Bool
free_apart [] ip = true
free_apart (e ∷ t) ip =
    ((e.init == entry_initialized) || not (memcmp e.ip ip ip_len)) && free_apart t ip

-- Another address, that no free entry happens to hold.
pub record IsOther (t : Table) (ip other : Buffer) : Type 0 where
  pub four : length other ≡ 4
  pub differs : other ≢ ip
  pub held : free_apart t other ≡ true

or_right : (a b : Bool) → (a || b) ≡ true → a ≡ false → b ≡ true
or_right a b h e = ground arith

and_right : (a b : Bool) → (a && b) ≡ true → (a ≡ true) × (b ≡ true)
and_right a b h = ground arith

-- The arrays of the table hold four bytes.
abbrev pub IsSized : Table → Type 0
IsSized [] = Unit
IsSized (e ∷ t) = (length e.ip ≡ 4) × IsSized t

replace_mac-unknown :
    (t : Table) (ip mac : Buffer) → known t ip ≡ false → replace_mac t ip mac ≡ none
unfolding replace_mac
replace_mac-unknown [] ip mac h = refl
replace_mac-unknown (e ∷ t) ip mac h = ground (arith, replace_mac-unknown t ip mac)

-- What `arp_add_cache` does to the answers for one address: `ip` gets `mac`, others keep theirs.
abbrev pub Updates : Table → Table → (ip mac : Buffer) → Type 0
Updates t t' ip mac =
    (arp_ip_to_mac t' ip ≡ some mac)
    × ((other : Buffer) → IsOther t ip other → arp_ip_to_mac t' other ≡ arp_ip_to_mac t other)

module _ (ip mac : Buffer) (li : length ip ≡ 4) where
  IsOther-tail :
      (e : Entry) (t : Table) (other : Buffer) → IsOther (e ∷ t) ip other → IsOther t ip other
  IsOther-tail e t other o = record {
    four = o.four;
    differs = o.differs;
    held = (and_right _ _ o.held).1;
  }

  replace_mac-known :
      (t : Table)
      → IsSized t
      → known t ip ≡ true
      → (t' : Table) × (replace_mac t ip mac ≡ some t')
        × (length t' ≡ length t)
        × Updates t t' ip mac
  unfolding replace_mac arp_ip_to_mac
  replace_mac-known [] w h = ground arith
  replace_mac-known (e ∷ t) w h = elim (Bool-cases (memcmp e.ip ip ip_len)) [
    | inl m ↦ (
      record e { mac = mac } ∷ t,
      rw m refl,
      refl,
      (
        rw m refl,
        λ other o.
            rw
              (memcmp-ne e.ip other 4 w.0 o.four
                λ same. o.differs (sym same ∙ memcmp-eq e.ip ip 4 w.0 li m))
              refl,
      ),
    )
    | inr m ↦
        let (t', eq, len, (found, rest)) = replace_mac-known t w.1 (or_right _ _ h m) in
        (
          e ∷ t',
          rw (m, eq) refl,
          ap suc len,
          (rw m found, λ other o. rw (rest other (IsOther-tail e t other o)) refl),
        )
  ]

  unknown_parts :
      (e : Entry) (t : Table)
      → known (e ∷ t) ip ≡ false
      → (memcmp e.ip ip ip_len ≡ false) × (known t ip ≡ false)
  unknown_parts e t u = ground (arith, u)

  free_tail : (e : Entry) (t : Table) → has_free (e ∷ t) ≡ false → has_free t ≡ false
  free_tail e t h = ground (arith, h)

  not_free :
      (e : Entry) (t : Table) → has_free (e ∷ t) ≡ false → (e.init == entry_initialized) ≡ true
  not_free e t h = ground (arith, h)

  not_held :
      (e : Entry) (t : Table) (other : Buffer)
      → (e.init == entry_initialized) ≡ false
      → IsOther (e ∷ t) ip other
      → memcmp e.ip other ip_len ≡ false
  not_held e t other free o = ground (arith, o.held, free)

  fill_entry-free :
      (t : Table)
      → known t ip ≡ false
      → has_free t ≡ true
      → (length (fill_entry t ip mac) ≡ length t) × Updates t (fill_entry t ip mac) ip mac
  unfolding fill_entry arp_ip_to_mac
  fill_entry-free [] u h = ground arith
  fill_entry-free (e ∷ t) u h = elim (Bool-cases (e.init == entry_initialized)) [
    | inl busy ↦
        let (len, (found, rest)) = fill_entry-free t (unknown_parts e t u).1 (rw busy at h) in
        rw busy (
          ap suc len,
          (
            rw (unknown_parts e t u).0 found,
            λ other o. rw (rest other (IsOther-tail e t other o)) refl,
          ),
        )
    | inr free ↦ rw free (
      refl,
      (
        rw (memcmp_refl ip 4 (ground (arith, li))) refl,
        λ other o.
            rw
              (
                memcmp-ne ip other 4 li o.four (λ same. o.differs (sym same)),
                not_held e t other free o,
              )
              refl,
      ),
    )
  ]

  fill_entry-full : (t : Table) → has_free t ≡ false → fill_entry t ip mac ≡ t
  unfolding fill_entry
  fill_entry-full [] h = refl
  fill_entry-full (e ∷ t) h = rw (not_free e t h, fill_entry-full t (free_tail e t h)) refl

  add-of_some : (t t' : Table) → replace_mac t ip mac ≡ some t' → arp_add_cache t ip mac ≡ t'
  unfolding arp_add_cache
  add-of_some t t' e = rw (arp_add_cache, e) refl

  add-of_none : (t : Table) → known t ip ≡ false → arp_add_cache t ip mac ≡ fill_entry t ip mac
  unfolding arp_add_cache
  add-of_none t u = rw (arp_add_cache, replace_mac-unknown t ip mac u) refl

  -- For a table of entries with addresses of four bytes that knows the address or has a free
  -- entry: after `arp_add_cache` the lookup of the address gives the new MAC address, and the
  -- table keeps its size.
  pub arp_ip_to_mac-add :
      (t : Table)
      → IsSized t
      → (known t ip || has_free t) ≡ true
      → (arp_ip_to_mac (arp_add_cache t ip mac) ip ≡ some mac)
        × (length (arp_add_cache t ip mac) ≡ length t)
  arp_ip_to_mac-add t w room = elim (Bool-cases (known t ip)) [
    | inl held ↦
        let (t', eq, len, (found, rest)) = replace_mac-known t w held in
        rw (add-of_some t t' eq) (found, len)
    | inr new ↦
        let (len, (found, rest)) = fill_entry-free t new (rw new at room) in
        rw (add-of_none t new) (found, len)
  ]

  -- For a table of entries with addresses of four bytes, the lookup of another address that no
  -- free entry holds is the same after `arp_add_cache` as before.
  pub arp_ip_to_mac-add_other :
      (t : Table) (other : Buffer)
      → IsSized t
      → IsOther t ip other
      → arp_ip_to_mac (arp_add_cache t ip mac) other ≡ arp_ip_to_mac t other
  arp_ip_to_mac-add_other t other w o = elim (Bool-cases (known t ip)) [
    | inl held ↦
        let (t', eq, len, (found, rest)) = replace_mac-known t w held in
        rw (add-of_some t t' eq) (rest other o)
    | inr new ↦ rw (add-of_none t new) (elim (Bool-cases (has_free t)) [
      | inl free ↦ (fill_entry-free t new free).1.1 other o
      | inr full ↦ rw (fill_entry-full t full) refl
    ])
  ]

  -- An address that the table does not know and for which no entry is free changes nothing.
  pub arp_add_cache-full :
      (t : Table) → known t ip ≡ false → has_free t ≡ false → arp_add_cache t ip mac ≡ t
  arp_add_cache-full t u full = rw (add-of_none t u) (fill_entry-full t full)
