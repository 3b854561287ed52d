-- ===== src/Mobility/Parse/Pass.antt =====
-- One pass of `mh_opt_parse`: what it keeps of the options recorded so far.
use dsmip.Common.{
  ℕ, ◌+◌, ◌<◌, ◌≤◌, ◌≡◌, ◌≢◌, ◌⊎◌, inl, inr, refl, sym, ◌∙◌, arith, Bool-cases, Option-cases, some,
  List, get_elem?, get_or, set, length, length-set, get_or-set_self, get_or-set_ne, get_elem?-none,
  ltb, leb, ◌==◌, ==_iff, ltb-false→le,
}
use dsmip.Mobility.Options.{pad1, padn, mhopt_max, mh_opt_len_ok}
use dsmip.Mobility.Parse.{
  Parsed, options, einval, bad_read, bad_table_read, out_of_fuel, Cursor, Step, done, next,
  mh_opts_dup_ok, skip, record_option, parse_option, parse_step,
}

-- A recorded offset is that of an option of its type, with its two bytes of header in the packet.
abbrev pub IsRecorded : List ℕ → ℕ → ℕ → ℕ → ℕ → Type 0
IsRecorded bytes offset len type at =
    (offset ≤ at) × (at + 2 ≤ len) × (get_elem? bytes at ≡ some type)

-- Where the options of a message begin: one behind the other, PAD1 as a byte, others by their length.
pub data Start (bytes : List ℕ) (offset : ℕ) : ℕ → Type 0 where
  first : Start bytes offset offset
  after_pad1 :
      {i : ℕ} → Start bytes offset i → get_elem? bytes i ≡ some pad1 → Start bytes offset (i + 1)
  after :
      {i type n : ℕ}
      → Start bytes offset i
      → get_elem? bytes i ≡ some type
      → type ≢ pad1
      → get_elem? bytes (i + 1) ≡ some n
      → Start bytes offset (i + (n + 2))

-- An option of this type begins here, with its two bytes of header in the packet.
abbrev pub IsOption : List ℕ → ℕ → ℕ → ℕ → ℕ → Type 0
IsOption bytes offset len type at = Start bytes offset at × IsRecorded bytes offset len type at

-- Two options of the same type, from 11 to the highest one known.
abbrev pub IsDoubled : List ℕ → ℕ → ℕ → Type 0
IsDoubled bytes offset len =
    (type : ℕ) × (i : ℕ) × (j : ℕ) × (i < j)
    × (11 ≤ type)
    × (type ≤ mhopt_max)
    × IsOption bytes offset len type i
    × IsOption bytes offset len type j

-- What holds of each result.
abbrev pub IsResult : List ℕ → ℕ → ℕ → Parsed → Type 0
IsResult bytes offset len (options n o) =
    (type at : ℕ) → get_or o.opts type 0 ≡ at → (at ≡ 0) ⊎ IsRecorded bytes offset len type at
IsResult bytes offset len einval = Unit {0}
IsResult bytes offset len bad_read = ⊥
IsResult bytes offset len bad_table_read = IsDoubled bytes offset len
IsResult bytes offset len out_of_fuel = ⊥

module _ (bytes : List ℕ) (offset len : ℕ) (fits : len ≤ length bytes) where
  pub record IsCursor (c : Cursor) : Type 0 where
    pub size : length c.found.opts ≡ 25
    pub from : offset ≤ c.at
    pub place : (c.left ≡ 0) ⊎ (c.at + c.left ≡ len)
    pub recorded :
        (type at : ℕ)
        → get_or c.found.opts type 0 ≡ at
        → (at ≡ 0) ⊎ (IsRecorded bytes offset len type at × (at < c.at))
    pub here : Start bytes offset c.at
    pub started : (type at : ℕ) → get_or c.found.opts type 0 ≡ at → (at ≡ 0) ⊎ Start bytes offset at

  -- A pass ends as it may, or goes on at a later place.
  abbrev pub Goes : Cursor → Step → Type 0
  Goes c (done r) = IsResult bytes offset len r
  Goes c (next c') = IsCursor c' × (c'.left < c.left)

  skip-IsCursor :
      (n : ℕ) (c : Cursor)
      → IsCursor c
      → c.left ≢ 0
      → 0 < n
      → Start bytes offset (c.at + n)
      → IsCursor (skip n c) × ((skip n c).left < c.left)
  skip-IsCursor n c w ne lt st = (
    record {
      size = w.size;
      from = omega (arith, w.from);
      place = ground (arith, w.place);
      recorded = λ type at e. elim (w.recorded type at e) [
        | inl z ↦ inl z
        | inr r ↦ inr (r.0, omega arith)
      ];
      here = st;
      started = w.started;
    },
    omega arith,
  )

  in_packet : (c : Cursor) → IsCursor c → 2 ≤ c.left → c.at + 2 ≤ len
  in_packet c w le = ground (arith, w.place)

  -- The option at the cursor is recorded, the others stay.
  IsRecorded-set :
      (type n : ℕ) (c : Cursor)
      → IsCursor c
      → 2 ≤ c.left
      → get_elem? bytes c.at ≡ some type
      → type < 25
      → (t at : ℕ) → get_or (set c.found.opts type c.at) t 0 ≡ at
      → (at ≡ 0) ⊎ (IsRecorded bytes offset len t at × (at < c.at + (n + 2)))
  IsRecorded-set type n c w le e lt t at q = elim (Bool-cases (type == t)) [
    | inl b ↦
        (let same : type ≡ t = (==_iff type t).0 b in
          let here : at ≡ c.at =
            sym q ∙ rw⁻¹ same (get_or-set_self c.found.opts type c.at 0 (omega (arith, w.size))) in
          inr (rw (here, sym same) ((w.from, in_packet c w le, e), omega arith)))
    | inr b ↦
        (let other : type ≢ t = λ p. ground (arith, ==_iff type t) in
          elim (w.recorded t at (sym (get_or-set_ne c.found.opts c.at 0 other) ∙ q)) [
            | inl z ↦ inl z
            | inr r ↦ inr (r.0, omega (arith, r.1))
          ])
  ]

  started-set :
      (type : ℕ) (c : Cursor)
      → IsCursor c
      → type < 25
      → (t at : ℕ) → get_or (set c.found.opts type c.at) t 0 ≡ at
      → (at ≡ 0) ⊎ Start bytes offset at
  started-set type c w lt t at q = elim (Bool-cases (type == t)) [
    | inl b ↦
        (let same : type ≡ t = (==_iff type t).0 b in
          let here : at ≡ c.at =
            sym q ∙ rw⁻¹ same (get_or-set_self c.found.opts type c.at 0 (omega (arith, w.size))) in
          inr (rw here (w.here)))
    | inr b ↦
        (let other : type ≢ t = λ p. ground (arith, ==_iff type t) in
          w.started t at (sym (get_or-set_ne c.found.opts c.at 0 other) ∙ q))
  ]

  doubled :
      (type : ℕ) (c : Cursor)
      → IsCursor c
      → 2 ≤ c.left
      → get_elem? bytes c.at ≡ some type
      → get_or c.found.opts type 0 ≢ 0
      → 11 ≤ type
      → type < 25
      → IsDoubled bytes offset len
  doubled type c w two e ne le lt =
      let i = get_or c.found.opts type 0 in
      elim (w.recorded type i refl) [
        | inl z ↦ absurd (ne z)
        | inr r ↦ elim (w.started type i refl) [
          | inl z ↦ absurd (ne z)
          | inr s ↦ (
            type,
            i,
            c.at,
            r.1,
            le,
            omega arith,
            (s, r.0),
            (w.here, (w.from, in_packet c w two, e)),
          )
        ]
      ]

  record_option-Goes :
      (type n : ℕ) (c : Cursor)
      → IsCursor c
      → 2 ≤ c.left
      → get_elem? bytes c.at ≡ some type
      → type < 25
      → Start bytes offset (c.at + (n + 2))
      → Goes c (record_option type n c)
  unfolding record_option
  record_option-Goes type n c w le e lt st = elim (Bool-cases (get_or c.found.opts type 0 == 0)) [
    | inl b ↦
        rw (record_option, b)
          (
            record {
              size = length-set c.found.opts type c.at ∙ w.size;
              from = omega (arith, w.from);
              place = ground (arith, w.place);
              recorded = IsRecorded-set type n c w le e lt;
              here = st;
              started = started-set type c w lt;
            },
            omega arith,
          )
    | inr b ↦ elim (Option-cases (get_elem? mh_opts_dup_ok type)) [
      | inl k ↦
          rw (record_option, b, k)
            (doubled type c w le e (λ z. ground (arith, ==_iff (get_or c.found.opts type 0) 0))
              ((get_elem?-none mh_opts_dup_ok type).0 k) lt)
      | inr (ok, k) ↦ elim (Bool-cases (ok == 0)) [
        | inl z ↦ rw (record_option, b, k, z) tt
        | inr z ↦
            rw (record_option, b, k, z)
              (
                record {
                  size = w.size;
                  from = omega (arith, w.from);
                  place = ground (arith, w.place);
                  recorded =
                      (skip-IsCursor (n + 2) c w (λ q. omega arith) (omega arith) st).0.recorded;
                  here = st;
                  started = w.started;
                },
                omega arith,
              )
      ]
    ]
  ]

  parse_option-Goes :
      (type : ℕ) (c : Cursor)
      → IsCursor c
      → c.left ≢ 0
      → get_elem? bytes c.at ≡ some type
      → type ≢ pad1
      → Goes c (parse_option bytes type c)
  unfolding parse_option
  parse_option-Goes type c w ne e np = elim (Bool-cases (ltb c.left 2)) [
    | inl b ↦ rw (parse_option, b) tt
    | inr b ↦ elim (Option-cases (get_elem? bytes (c.at + 1))) [
      | inl g ↦ absurd (
          ground
            (arith, (get_elem?-none bytes (c.at + 1)).0 g, in_packet c w (ltb-false→le c.left 2 b)))
      | inr (n, g) ↦ elim (Bool-cases (mh_opt_len_ok type (n + 2))) [
        | inr k ↦ rw (parse_option, b, g, k) tt
        | inl k ↦ elim (Bool-cases (type == padn)) [
          | inl p ↦
              rw (parse_option, b, g, k, p)
                (skip-IsCursor (n + 2) c w ne (omega arith) (after w.here e np g))
          | inr p ↦ elim (Bool-cases (leb type mhopt_max)) [
            | inl m ↦
                rw (parse_option, b, g, k, p, m)
                  (record_option-Goes type n c w (ltb-false→le c.left 2 b) e (ground (arith, m))
                    (after w.here e np g))
            | inr m ↦
                rw (parse_option, b, g, k, p, m)
                  (skip-IsCursor (n + 2) c w ne (omega arith) (after w.here e np g))
          ]
        ]
      ]
    ]
  ]

  pub parse_step-Goes : (c : Cursor) → IsCursor c → Goes c (parse_step bytes c)
  unfolding parse_step
  parse_step-Goes c w = elim (Bool-cases (c.left == 0)) [
    | inl z ↦
        rw (parse_step, z)
          (λ type at q. elim (w.recorded type at q) [ inl n ↦ inl n | inr r ↦ inr r.0 ])
    | inr z ↦
        (let ne : c.left ≢ 0 = λ q. ground (arith, ==_iff c.left 0) in
          elim (Bool-cases c.bauth) [
            | inl b ↦ rw (parse_step, z, b) tt
            | inr b ↦ elim (Option-cases (get_elem? bytes c.at)) [
              | inl g ↦ absurd (ground (arith, (get_elem?-none bytes c.at).0 g, w.place))
              | inr (type, g) ↦ elim (Bool-cases (type == pad1)) [
                | inl p ↦
                    rw (parse_step, z, b, g, p)
                      (skip-IsCursor 1 c w ne (omega arith)
                        (after_pad1 w.here (ground (arith, ==_iff type pad1))))
                | inr p ↦
                    rw (parse_step, z, b, g, p)
                      (parse_option-Goes type c w ne g (λ q. ground (arith, ==_iff type pad1)))
              ]
            ]
          ])
  ]
