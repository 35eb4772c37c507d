-- ===== src/Memory/AddressMap/Frames.antt =====
-- Each page that is mapped has a frame of its own within the physical memory.
use os_exploring.Common.{
  ℕ, ◌+◌, ◌*◌, ◌/◌, ◌%◌, ◌≤◌, ◌<◌, ◌≡◌, ◌≢◌, refl, ap, ◌∙◌, ◌⊎◌, inl, inr, true, false, some, arith,
  ltb, leb, Bool-cases, ℕ_discrete, write_range_lem, lt→in_range,
}
use os_exploring.Memory.AddressMap.{
  map_page_size, physical_memory_size, AddressMapping, Translator, initialize_translator, map_page,
  create_address_mapping, mapping_of, permits, translate_logical,
}

pub record IsPlaced (t : Translator) : Type 0 where
  pub room : t.used_physical_memory ≤ physical_memory_size
  pub inside :
      (p : ℕ)
      → p < t.map_size
      → (t.address_map p).valid ≡ true
      → (t.address_map p).physical_address + map_page_size ≤ t.used_physical_memory
  pub apart :
      (p q : ℕ)
      → p < t.map_size
      → q < t.map_size
      → p ≢ q
      → (t.address_map p).valid ≡ true
      → (t.address_map q).valid ≡ true
      → ((t.address_map p).physical_address + map_page_size ≤ (t.address_map q).physical_address)
        ⊎ ((t.address_map q).physical_address + map_page_size ≤ (t.address_map p).physical_address)

pub initialize_translator-IsPlaced :
    (raw : ℕ → AddressMapping) → IsPlaced (initialize_translator raw)
unfolding initialize_translator
initialize_translator-IsPlaced raw =
    let none_valid : (p : ℕ) → p < 4 → ((initialize_translator raw).address_map p).valid ≡ false =
      λ p low.
        rw
          (
            write_range_lem
                (λ i _. record {
                  logical_address = i * map_page_size;
                  physical_address = 0;
                  valid = false;
                  protection = 0;
                })
                4 0 raw p,
            lt→in_range 4 p low,
          )
          refl in
    record {
      room = omega arith;
      inside = λ p low v. absurd (cc (v, none_valid p low));
      apart = λ p q low _ _ v. absurd (cc (v, none_valid p low));
    }

-- What a translation that succeeds says.
record Translated (t : Translator) (l a : ℕ) : Type 0 where
  mapped : l / map_page_size < t.map_size
  valid : (mapping_of t l).valid ≡ true
  at : a ≡ (mapping_of t l).physical_address + l % map_page_size

translate_logical-Translated :
    (t : Translator) (l access a : ℕ) → translate_logical t l access ≡ some a → Translated t l a
unfolding translate_logical
translate_logical-Translated t l access a e =
    elim (Bool-cases (leb t.map_size (l / map_page_size))) [
      | inl beyond ↦ absurd (cc (rw (beyond, translate_logical) at e))
      | inr low ↦ elim (Bool-cases (mapping_of t l).valid) [
        | inr invalid ↦ absurd (cc (rw (low, invalid, translate_logical) at e))
        | inl valid ↦ elim (Bool-cases (permits (mapping_of t l) access)) [
          | inr refused ↦ absurd (cc (rw (low, valid, refused, translate_logical) at e))
          | inl allowed ↦
              let same : some ((mapping_of t l).physical_address + l % map_page_size) ≡ some a =
                rw (low, valid, allowed, translate_logical) at e in
              record { mapped = ground (arith, low); valid = valid; at = cc same }
        ]
      ]
    ]

translate_logical-some :
    (t : Translator) (l access : ℕ)
    → leb t.map_size (l / map_page_size) ≡ false
    → (mapping_of t l).valid ≡ true
    → permits (mapping_of t l) access ≡ true
    → translate_logical t l access ≡ some ((mapping_of t l).physical_address + l % map_page_size)
unfolding translate_logical
translate_logical-some t l access low valid allowed =
    rw (low, valid, allowed, translate_logical) refl

-- A translated address lies in the physical memory, whatever the access, and different logical
-- addresses have different ones.
pub translate_logical-IsPlaced :
    (t : Translator) (l m access access' a b : ℕ)
    → IsPlaced t
    → translate_logical t l access ≡ some a
    → translate_logical t m access' ≡ some b
    → (a < 2048) × (l ≢ m → a ≢ b)
translate_logical-IsPlaced t l m access access' a b h e f =
    let u = translate_logical-Translated t l access a e in
    let v = translate_logical-Translated t m access' b f in
    let inside = h.inside (l / map_page_size) u.mapped u.valid in
    (
      omega (arith, u.at, inside, h.room),
      λ other same. elim (ℕ_discrete (l / map_page_size) (m / map_page_size)) [
        | yes page ↦
            let frame : (mapping_of t l).physical_address ≡ (mapping_of t m).physical_address =
              ap (λ p. (t.address_map p).physical_address) page in
            other (omega (arith, u.at, v.at, frame, same, page))
        | no pages ↦
            elim (h.apart (l / map_page_size) (m / map_page_size) u.mapped v.mapped pages u.valid
              v.valid) [
                | inl before ↦ absurd (omega (arith, u.at, v.at, before, same))
                | inr behind ↦ absurd (omega (arith, u.at, v.at, behind, same))
              ]
      ],
    )

pub map_page-IsPlaced :
    (t : Translator) (l protection : ℕ)
    → t.used_physical_memory + map_page_size ≤ physical_memory_size
    → IsPlaced t
    → IsPlaced (map_page t l protection)
map_page-IsPlaced t l protection room h =
    let page = l / map_page_size in
    record {
      room = room;
      inside = λ p low v. elim (ℕ_discrete page p) [
        | yes same ↦ ground (arith, same)
        | no other ↦ ground (arith, h.inside p low, v, other)
      ];
      apart = λ p q low_p low_q differ v w. elim (ℕ_discrete page p) [
        | yes same ↦
            let old = h.inside q low_q (ground (arith, w, same, differ)) in
            inr (ground (arith, same, differ, old))
        | no other ↦ elim (ℕ_discrete page q) [
          | yes same' ↦
              let old = h.inside p low_p (ground (arith, v, other)) in
              inl (ground (arith, same', other, old))
          | no other' ↦
              let old =
                h.apart p q low_p low_q differ (ground (arith, v, other))
                  (ground (arith, w, other')) in
              elim old [
                | inl before ↦ inl (ground (arith, before, other, other'))
                | inr behind ↦ inr (ground (arith, behind, other, other'))
              ]
        ]
      ];
    }

-- A page beyond the map, or a memory that is full, makes the mapping fail and changes nothing. Else the
-- frames stay apart and inside the memory, and every permitted access to an address of the page is
-- translated to the first frame that was not in use.
pub create_address_mapping_lem :
    (t : Translator) (l protection : ℕ)
    → IsPlaced t
    → ((create_address_mapping t l protection ≡ (false, t))
        × ((t.map_size ≤ l / map_page_size)
            ⊎ (physical_memory_size < t.used_physical_memory + map_page_size)))
      ⊎ ((create_address_mapping t l protection ≡ (true, map_page t l protection))
          × IsPlaced (map_page t l protection)
          × ((m access : ℕ)
              → m / map_page_size ≡ l / map_page_size
              → permits (mapping_of (map_page t l protection) m) access ≡ true
              → translate_logical (map_page t l protection) m access
                ≡ some (t.used_physical_memory + m % map_page_size)))
unfolding create_address_mapping
create_address_mapping_lem t l protection h =
    elim (Bool-cases (leb t.map_size (l / map_page_size))) [
      | inl beyond ↦ inl (rw beyond, inl (ground (arith, beyond)))
      | inr low ↦
          elim (Bool-cases (ltb physical_memory_size (t.used_physical_memory + map_page_size))) [
            | inl full ↦ inl (rw (low, full), inr (ground (arith, full)))
            | inr room ↦ inr (
              rw (low, room),
              map_page-IsPlaced t l protection (ground (arith, room)) h,
              λ m access page allowed.
                  let now = map_page t l protection in
                  let frame : (mapping_of now m).physical_address ≡ t.used_physical_memory =
                    ground (arith, page) in
                  translate_logical-some now m access (rw page low) (ground (arith, page)) allowed
                  ∙ ap (λ (a : ℕ). some (a + m % map_page_size)) frame,
            )
          ]
    ]
