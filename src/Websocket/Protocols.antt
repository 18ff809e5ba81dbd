-- ===== src/Websocket/Protocols.antt =====
-- The list of protocols that src/websocket_interceptor.rs sends to the target.
use mathlib.Core.List.{reverse, reverse-cons}
use bifrost_core.Prelude.{
  ℕ, ◌≤◌, ◌≡◌, ◌≢◌, ◌⊎◌, refl, sym, ap, ◌∙◌, some, none, false, List, [], ◌∷◌, ◌++◌, map,
  append_assoc, append-nil, All, All-append, All-imp, arith, inl, inr, Option,
}
use bifrost_core.Prelude.Text.{Str, str_eq, str_eq_refl, str_eq_ne, split, join, trim, trim_start}
use bifrost_core.Http.{HeaderValue, HeaderMap, get_header, header_text, readable}
use bifrost_core.Websocket.{protocol_header, sub_protocol, clean_protocols, copy_headers}
use bifrost_core.Websocket.Headers.{sent_option, get_header-copy_headers}

-- A space or a tab; a byte of a protocol's name, which is neither and no comma.
abbrev pub IsBlank : ℕ → Type 0
IsBlank c = (c ≡ 32) ⊎ (c ≡ 9)

abbrev pub IsToken : ℕ → Type 0
IsToken c = (33 ≤ c) × (c ≢ b',')

-- A name with the blanks around it.
pub record Part : Type 0 where
  pub before : Str
  pub name : Str
  pub after : Str
  pub blank_before : All IsBlank before
  pub is_name : All IsToken name
  pub blank_after : All IsBlank after

abbrev pub padded : Part → Str
padded p = p.before ++ (p.name ++ p.after)

-- A list as a client writes it, and the same list without the blanks.
abbrev pub written : Part → List Part → Str
written p [] = padded p
written p (q ∷ ps) = padded p ++ b',' ∷ written q ps

abbrev pub bare : Part → List Part → Str
bare p [] = p.name
bare p (q ∷ ps) = p.name ++ b',' ∷ bare q ps

reverse-append : (s t : Str) → reverse (s ++ t) ≡ reverse t ++ reverse s
reverse-append [] t = sym (append-nil (reverse t))
reverse-append (a ∷ s) t =
    reverse-cons a (s ++ t)
    ∙ ap (λ r. r ++ a ∷ []) (reverse-append s t)
    ∙ append_assoc (reverse t) (reverse s) (a ∷ [])
    ∙ ap (λ r. reverse t ++ r) (sym (reverse-cons a s))

reverse-reverse : (s : Str) → reverse (reverse s) ≡ s
reverse-reverse [] = refl
reverse-reverse (a ∷ s) =
    ap reverse (reverse-cons a s)
    ∙ reverse-append (reverse s) (a ∷ [])
    ∙ ap (λ r. a ∷ r) (reverse-reverse s)

All-reverse : (P : ℕ → Type 0) (s : Str) → All P s → All P (reverse s)
All-reverse P [] h = tt
All-reverse P (a ∷ s) h =
    rw (reverse-cons a s) (All-append P (reverse s) (a ∷ []) (All-reverse P s h.1) (h.0, tt))

trim_start-blanks : (s t : Str) → All IsBlank s → trim_start (s ++ t) ≡ trim_start t
unfolding trim_start
trim_start-blanks [] t h = refl
trim_start-blanks (a ∷ s) t (inl e, h) = ground (arith, trim_start-blanks s t h)
trim_start-blanks (a ∷ s) t (inr e, h) = ground (arith, trim_start-blanks s t h)

trim_start-name : (s : Str) → All IsToken s → trim_start s ≡ s
unfolding trim_start
trim_start-name [] h = refl
trim_start-name (a ∷ s) h = ground arith

trim_start-append :
    (s t : Str)
    → All IsToken s
    → All IsBlank t
    → (u : Str) × (trim_start (s ++ t) ≡ s ++ u) × All IsBlank u
unfolding trim_start
trim_start-append [] t h k = ([], ap trim_start (sym (append-nil t)) ∙ trim_start-blanks t [] k, tt)
trim_start-append (a ∷ s) t h k = (t, ground arith, k)

trim-padded : (p : Part) → trim (padded p) ≡ p.name
unfolding trim
trim-padded p =
    let (u, e, blank) = trim_start-append p.name p.after p.is_name p.blank_after in
    rw
      (
        trim_start-blanks p.before (p.name ++ p.after) p.blank_before,
        e,
        reverse-append p.name u,
        trim_start-blanks (reverse u) (reverse p.name) (All-reverse IsBlank u blank),
        trim_start-name (reverse p.name) (All-reverse IsToken p.name p.is_name),
      )
      (reverse-reverse p.name)

-- A byte that does not separate two parts.
abbrev IsInner : ℕ → Type 0
IsInner c = c ≢ b','

padded-IsInner : (p : Part) → All IsInner (padded p)
padded-IsInner p =
    All-append IsInner p.before (p.name ++ p.after)
      (All-imp IsBlank IsInner p.before blank p.blank_before)
      (All-append IsInner p.name p.after (All-imp IsToken IsInner p.name (λ c h. h.1) p.is_name)
        (All-imp IsBlank IsInner p.after blank p.blank_after))
  where
    blank : (c : ℕ) → IsBlank c → IsInner c
    blank c (inl e) = omega (arith, e)
    blank c (inr e) = omega (arith, e)

split-last : (s : Str) → All IsInner s → split b',' s ≡ s ∷ []
unfolding split
split-last [] h = refl
split-last (a ∷ s) h = ground (arith, split-last s h.1)

split-next : (s t : Str) → All IsInner s → split b',' (s ++ b',' ∷ t) ≡ s ∷ split b',' t
unfolding split
split-next [] t h = refl
split-next (a ∷ s) t h = ground (arith, split-next s t h.1)

split-written : (p : Part) (ps : List Part) → split b',' (written p ps) ≡ padded p ∷ map padded ps
split-written p [] = split-last (padded p) (padded-IsInner p)
split-written p (q ∷ ps) =
    split-next (padded p) (written q ps) (padded-IsInner p)
    ∙ ap (λ r. padded p ∷ r) (split-written q ps)

join-trimmed :
    (p : Part) (ps : List Part) → join (b',' ∷ []) (map trim (padded p ∷ map padded ps)) ≡ bare p ps
unfolding join
join-trimmed p [] = trim-padded p
join-trimmed p (q ∷ ps) = rw (trim-padded p) (ap (λ r. p.name ++ b',' ∷ r) (join-trimmed q ps))

clean_protocols-written : (p : Part) (ps : List Part) → clean_protocols (written p ps) ≡ bare p ps
unfolding clean_protocols
clean_protocols-written p ps = rw (split-written p ps) (join-trimmed p ps)

sent-protocols :
    (headers : HeaderMap) (o : Option HeaderValue) (t : Str)
    → readable o ≡ some t
    → readable (sent_option headers protocol_header o) ≡ some (sub_protocol headers)
sent-protocols headers none t e = cc
sent-protocols headers (some v) t e = rw (str_eq_refl protocol_header) refl

sent-others :
    (headers : HeaderMap) (name : Str) (o : Option HeaderValue)
    → str_eq name protocol_header ≡ false
    → sent_option headers name o ≡ o
sent-others headers name none e = refl
sent-others headers name (some v) e = rw e refl

-- A client whose first Sec-WebSocket-Protocol header is a list of names, none of them with a blank
-- or a comma in it, with any spaces and tabs around them: under that name the target reads the same
-- names in the same order without the blanks.
pub copy_headers-protocols :
    (headers : HeaderMap) (p : Part) (ps : List Part)
    → header_text protocol_header headers ≡ some (written p ps)
    → header_text protocol_header (copy_headers headers headers) ≡ some (bare p ps)
unfolding header_text
copy_headers-protocols headers p ps e =
    ap readable (get_header-copy_headers headers protocol_header)
    ∙ sent-protocols headers (get_header protocol_header headers) (written p ps) e
    ∙ rw e (ap some (clean_protocols-written p ps))

-- Under any other name the target reads the first value that the client gave under it, or none
-- where the client gave none.
pub copy_headers-others :
    (headers : HeaderMap) (name : Str)
    → name ≢ protocol_header
    → get_header name (copy_headers headers headers) ≡ get_header name headers
copy_headers-others headers name ne =
    get_header-copy_headers headers name
    ∙ sent-others headers name (get_header name headers) (str_eq_ne name protocol_header ne)
