-- ===== src/Daemon/Settings/Printed.antt =====
-- The command `staticip fix` of the daemon cngictrl, and the addresses as a user writes them.
use dsmip.Common.{
  ◌<◌, ◌≡◌, refl, Bool, true, false, not, ◌&&◌, [], ◌∷◌, ◌++◌, length, some, ◌==◌, append_assoc,
  Bool-cases, inl, inr, arith, if◌then◌else◌,
}
use dsmip.Daemon.Text.{
  Text, codes, newline, space, skipspace, copy, is_word_end, break_at, break_space,
}
use dsmip.Daemon.State.{StaticIp, Daemon}
use dsmip.Daemon.Settings.{skip_via, begins_v, read_gateway, staticipfix}

-- One word, that is not the "via" of a gateway.
abbrev pub is_word : Text → Bool
is_word [] = true
is_word (c ∷ t) = not (is_word_end c) && is_word t

abbrev pub is_addr : Text → Bool
is_addr [] = false
is_addr (c ∷ t) = not (c == b'v') && is_word (c ∷ t)

abbrev pub via : StaticIp → Text
via s = if s.use_gateway then codes "via " ++ (s.gateway ++ codes " ") else []

-- The argument of the command, with the address and perhaps the gateway of both entries.
abbrev pub print_static : StaticIp → StaticIp → Text
print_static s t =
    space ∷ (s.addr ++ space ∷ (via s ++ (t.addr ++ space ∷ (via t ++ newline ∷ []))))

abbrev pub Fits : StaticIp → Type 0
Fits s =
    (is_addr s.addr ≡ true)
    × (length s.addr < 80)
    × (is_addr s.gateway ≡ true)
    × (length s.gateway < 80)

copy_lem : (t : Text) → length t < 80 → copy 80 t ≡ some t
unfolding copy
copy_lem t h = ground arith

break_space_lem :
    (w rest : Text) → is_word w ≡ true → break_space (w ++ space ∷ rest) ≡ some (w, space ∷ rest)
unfolding break_space
break_space_lem [] rest h = refl
break_space_lem (c ∷ w) rest h = ground (arith, break_space_lem w rest)

break_at_lem :
    (w rest : Text)
    → is_word w ≡ true
    → break_at is_word_end (w ++ space ∷ rest) ≡ (w, space ∷ rest)
unfolding break_at
break_at_lem [] rest h = refl
break_at_lem (c ∷ w) rest h = ground (arith, break_at_lem w rest)

abbrev starts_word : Text → Bool
starts_word [] = true
starts_word (c ∷ t) = not (c == space) && not (c == b'v')

skipspace_lem : (t : Text) → starts_word t ≡ true → skipspace t ≡ t
unfolding skipspace
skipspace_lem [] h = refl
skipspace_lem (c ∷ t) h = ground arith

addr-starts : (a rest : Text) → is_addr a ≡ true → starts_word (a ++ rest) ≡ true
addr-starts [] rest h = ground arith
addr-starts (c ∷ a) rest h = ground arith

addr-word : (a : Text) → is_addr a ≡ true → is_word a ≡ true
addr-word [] h = refl
addr-word (c ∷ a) h = ground arith

-- What is read of a gateway, and the rest after it.
given : StaticIp → StaticIp → StaticIp
given r s = record r {
  use_gateway = s.use_gateway;
  gateway = if s.use_gateway then s.gateway else r.gateway;
}

no_gateway :
    (r : StaticIp) (next : Text)
    → starts_word next ≡ true
    → read_gateway r next ≡ some (record r { use_gateway = false }, next)
unfolding read_gateway begins_v
no_gateway r [] h = refl
no_gateway r (c ∷ next) h = ground arith

some_gateway :
    (r : StaticIp) (g next : Text)
    → is_addr g ≡ true
    → length g < 80
    → starts_word next ≡ true
    → read_gateway r (codes "via " ++ (g ++ space ∷ next))
      ≡ some (record r { use_gateway = true; gateway = g }, next)
unfolding read_gateway begins_v skip_via
some_gateway r g next a l h =
    let gap : skipspace (space ∷ (g ++ space ∷ next)) ≡ g ++ space ∷ next =
      unfold skipspace in skipspace_lem (g ++ space ∷ next) (addr-starts g (space ∷ next) a) in
    let word = break_at_lem g next (addr-word g a) in
    let gone : skipspace (space ∷ next) ≡ next = unfold skipspace in skipspace_lem next h in
    rw (gap, word, copy_lem g l, gone) refl

read_gateway_lem :
    (r s : StaticIp) (next : Text)
    → Fits s
    → starts_word next ≡ true
    → read_gateway r (via s ++ next) ≡ some (given r s, next)
unfolding given
read_gateway_lem r s next (a, b, g, l) h = elim (Bool-cases s.use_gateway) [
  | inl e ↦ simp (e, append_assoc) (some_gateway r s.gateway next g l h)
  | inr e ↦ simp e (no_gateway r next h)
]

skipspace-via :
    (s : StaticIp) (next : Text)
    → starts_word next ≡ true
    → skipspace (space ∷ (via s ++ next)) ≡ via s ++ next
unfolding skipspace
skipspace-via s next h = elim (Bool-cases s.use_gateway) [
  | inl e ↦ simp e refl
  | inr e ↦ simp e (skipspace_lem next h)
]

-- The command staticip fix reads two entries back as they are written, each with its gateway or
-- without: the addresses, whether there is a gateway and, where there is, the gateway; an entry
-- without one keeps its old gateway. The texts have no spaces, do not begin with v and fit in their
-- arrays.
pub staticipfix-print :
    (s t : StaticIp) (d : Daemon)
    → Fits s
    → Fits t
    → staticipfix (print_static s t) d
      ≡ some (record d {
        static0 = record {
          addr = s.addr;
          use_gateway = s.use_gateway;
          gateway = if s.use_gateway then s.gateway else d.static0.gateway;
        };
        static1 = record {
          addr = t.addr;
          use_gateway = t.use_gateway;
          gateway = if t.use_gateway then t.gateway else d.static1.gateway;
        };
      })
unfolding staticipfix
staticipfix-print s t d fs ft =
    let last : Text = newline ∷ [] in
    let second : Text = t.addr ++ space ∷ (via t ++ last) in
    let first : Text = via s ++ second in
    let starts = addr-starts t.addr (space ∷ (via t ++ last)) (ft.0) in
    let gap : skipspace (space ∷ (s.addr ++ space ∷ first)) ≡ s.addr ++ space ∷ first =
      unfold skipspace in
      skipspace_lem (s.addr ++ space ∷ first) (addr-starts s.addr (space ∷ first) (fs.0)) in
    rw
      (
        gap,
        break_space_lem s.addr first (addr-word s.addr (fs.0)),
        copy_lem s.addr (fs.1),
        skipspace-via s second starts,
        read_gateway_lem (record d.static0 { addr = s.addr }) s second fs starts,
        break_at_lem t.addr (via t ++ last) (addr-word t.addr (ft.0)),
        copy_lem t.addr (ft.1),
        skipspace-via t last refl,
        read_gateway_lem (record d.static1 { addr = t.addr }) t last ft refl,
      )
      (unfold given in refl)
