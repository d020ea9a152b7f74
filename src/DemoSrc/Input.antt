-- ===== src/DemoSrc/Input.antt =====
-- The words of a line of input and the numbers and addresses in them (`split_input[i].parse()` in
-- examples/demo_src/src/main.rs). A word is the list of its bytes.
use sacn_rust.Receive.Ordering.{eq_values}
use sacn_rust.Common.{
  ◌>>=◌, ◌||◌, ℕ, zero, suc, ◌+◌, ◌-◌, ◌*◌, ◌==◌, ◌&&◌, ltb, leb, Bool, true, false, Option, none,
  some, List, [], ◌∷◌, Outcome, ok, panic, length, if◌then◌else◌,
}
use sacn_rust.Packet.Universe.{SocketAddr, v4, v6}

abbrev pub Word : Type 0
Word = List ℕ

-- `str::parse` of an unsigned integer whose type has the maximum `max`: digits, after a `+` or not.
unfoldable pub parse_digits : ℕ → ℕ → Word → Option ℕ
parse_digits max n [] = some n
parse_digits max n (c ∷ cs) =
    let next = n * 10 + (c - 48) in
    let rest = parse_digits max next cs in
    if leb 48 c && leb c 57 && leb next max then rest else none

unfoldable pub parse_unsigned : ℕ → Word → Option ℕ
unfolding parse_digits
parse_unsigned max [] = none
parse_unsigned max (c ∷ []) = parse_digits max 0 (c ∷ [])
parse_unsigned max (c ∷ d ∷ cs) =
    if c == 43 then parse_digits max 0 (d ∷ cs) else parse_digits max 0 (c ∷ d ∷ cs)

-- `==` of two words.
abbrev pub is_word : Word → Word → Bool
is_word = eq_values

-- `str::parse` of a `bool`: the word `true` or the word `false`.
unfoldable pub parse_bool : Word → Option Bool
parse_bool word =
    if is_word word (116 ∷ 114 ∷ 117 ∷ 101 ∷ [])
    then some true
    else (if is_word word (102 ∷ 97 ∷ 108 ∷ 115 ∷ 101 ∷ []) then some false else none)

-- The parts of a word between the bytes `separator`.
unfoldable pub split_on : ℕ → Word → List Word
split_on separator [] = [] ∷ []
split_on separator (c ∷ cs) = elim (split_on separator cs) [
  | [] ↦ (c ∷ []) ∷ []
  | part ∷ parts ↦ if c == separator then [] ∷ part ∷ parts else (c ∷ part) ∷ parts
]

-- One to three digits, without a leading zero, up to 255.
unfoldable pub parse_octet : Word → Option ℕ
unfolding parse_digits
parse_octet [] = none
parse_octet (c ∷ cs) =
    if ltb 2 (length cs) || ((c == 48) && ltb 0 (length cs))
    then none
    else parse_digits 255 0 (c ∷ cs)

-- `str::parse` of an `Ipv4Addr`.
abbrev pub four : Option ℕ → Option ℕ → Option ℕ → Option ℕ → Option (List ℕ)
four (some a) (some b) (some c) (some d) = some (a ∷ b ∷ c ∷ d ∷ [])
four _ _ _ _ = none

unfoldable pub parse_ipv4 : Word → Option (List ℕ)
unfolding parse_octet split_on
parse_ipv4 word = elim (split_on 46 word) [
  | a ∷ b ∷ c ∷ d ∷ [] ↦ four (parse_octet a) (parse_octet b) (parse_octet c) (parse_octet d)
  | _ ↦ none
]

-- The texts of IPv6 addresses, which the standard library reads: the segments of one, and a socket
-- address of one in brackets with its port.
pub record Ipv6Text : Type 0 where
  pub parse_ipv6 : Word → Option (List ℕ)
  pub parse_socket_v6 : Word → Option SocketAddr

-- `str::parse` of an `IpAddr`, with a port, and `SocketAddr::from_str`.
module _ ⦃text_v6 : Ipv6Text⦄ where
  unfoldable pub parse_ip : Word → ℕ → Option SocketAddr
  unfolding parse_ipv4
  parse_ip word port = elim (parse_ipv4 word) [
    | some ip ↦ some (v4 ip port)
    | none ↦ elim (text_v6.parse_ipv6 word) [ none ↦ none | some ip ↦ some (v6 ip port) ]
  ]

  unfoldable pub parse_socket_addr : Word → Option SocketAddr
  unfolding parse_ipv4
  parse_socket_addr word = elim (split_on 58 word) [
    | ip ∷ (p ∷ ps) ∷ [] ↦ elim (parse_ipv4 ip) [
      | none ↦ none
      | some segments ↦ elim (parse_digits 65535 0 (p ∷ ps)) [
        | none ↦ none
        | some port ↦ some (v4 segments port)
      ]
    ]
    | _ ↦ text_v6.parse_socket_v6 word
  ]

-- `split_input[i]`, which panics when there are too few words.
abbrev pub word_at : {E : Type 0} → ℕ → List Word → Outcome E Word
word_at i [] = panic
word_at zero (w ∷ ws) = ok w
word_at (suc i) (w ∷ ws) = word_at i ws

-- `unwrap`.
abbrev pub unwrap : {E A : Type 0} → Option A → Outcome E A
unwrap none = panic
unwrap (some a) = ok a

-- `split_input[i].parse().unwrap()`, of an unsigned integer.
abbrev pub number_at : {E : Type 0} → ℕ → ℕ → List Word → Outcome E ℕ
number_at max i words = do word ← word_at i words; unwrap (parse_unsigned max word)

-- The loop that parses the words from `i` on.
abbrev pub parse_all : {E : Type 0} → ℕ → List Word → Outcome E (List ℕ)
parse_all max [] = ok []
parse_all max (w ∷ ws) = do n ← unwrap (parse_unsigned max w); ns ← parse_all max ws; ok (n ∷ ns)
