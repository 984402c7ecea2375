-- ===== src/Http/Parsing.antt =====
-- How a request that has arrived is taken apart into its lines and headers.
use mmo_backend.Base.{
  ℕ, zero, suc, ◌+◌, ◌-◌, ◌≤◌, ◌<◌, ◌≡◌, refl, ap, ◌∙◌, false, some, List, [], ◌∷◌, ◌++◌, length,
  map, lt→ltb, Result, ok, arith, append_assoc, take_all, drop_all, length-replicate,
}
use mmo_backend.Base.Strings.{ascii}
use mmo_backend.Receiver.{Peer, read_socket}
use mmo_backend.Receiver.Arrivals.{IsPrompt, read_socket-IsPrompt}
use mmo_backend.Http.Reader.{BufferedReader, br_init, br_read, br_read_line, line_end, write_at}
use mmo_backend.Http.Lines.{IsText, zeros, drop-zeros, lines_in, quiet, br_read_line-text}
use mmo_backend.Http.Headers.{
  max_header, max_header_value, Header, Libc, header_of, starts_return, header_list_parse_headers,
}

-- Lines, each with its end, and the empty line behind them.
abbrev pub flat : List (List ℕ) → List ℕ
flat [] = ascii "\r\n"
flat (l ∷ ls) = l ++ 10 ∷ flat ls

-- Lines of text that have room in a buffer, and of which none is the one that ends the headers.
abbrev pub AllLines : ℕ → List (List ℕ) → Type 0
AllLines room [] = Unit {0}
AllLines room (l ∷ ls) =
    IsText l × (0 < length l) × (length l + 2 ≤ room) × (starts_return l ≡ false) × AllLines room ls

read_line :
    (rounds : ℕ) (l rest : List ℕ) (k : ℕ) (p : Peer)
    → IsText l
    → 0 < length l
    → length l + 2 ≤ k
    → p.input ≡ []
    → br_read_line (suc rounds) (lines_in (l ++ 10 ∷ rest) k) p
      ≡ ok (some (l ++ 10 ∷ []), lines_in rest (k + length l + 1), quiet p)
read_line rounds l rest k p t h r e =
    ap (λ (b : List ℕ). br_read_line (suc rounds) (record { buf = b; too_long = false }) p)
      (append_assoc l (10 ∷ rest) (zeros k))
    ∙ br_read_line-text rounds l rest k p t h r e

module _ (libc : Libc) where
  -- A line has a name and a value, which fit into their blocks.
  pub record IsHeader (line : List ℕ) : Type 0 where
    pub name : List ℕ
    pub value : List ℕ
    pub scan_eq : libc.scan_header line ≡ (some name, some value)
    pub name_fits : length name < max_header
    pub value_fits : length value < max_header_value

  abbrev pub AllHeaders : List (List ℕ) → Type 0
  AllHeaders [] = Unit {0}
  AllHeaders (l ∷ ls) = IsHeader (l ++ 10 ∷ []) × AllHeaders ls

  abbrev pub headers_of : (ls : List (List ℕ)) → AllHeaders ls → List Header
  headers_of [] h = []
  headers_of (l ∷ ls) (h, hs) =
      let rest = headers_of ls hs in
      record { header_name = map libc.tolower h.name; header_value = h.value } ∷ rest

  header_made :
      (line : List ℕ) (h : IsHeader line)
      → header_of libc line
        ≡ ok (record { header_name = map libc.tolower h.name; header_value = h.value })
  unfolding header_of
  header_made line h =
      rw
        (
          h.scan_eq,
          lt→ltb (length h.name) max_header h.name_fits,
          lt→ltb (length h.value) max_header_value h.value_fits,
        )
        refl

  pub record Parsed (r : Result (List Header × BufferedReader × Peer)) (ls : List (List ℕ))
      (hs : AllHeaders ls) : Type 0 where
    pub reader : BufferedReader
    pub peer : Peer
    pub parsed : r ≡ ok (headers_of ls hs, reader, peer)

  parse_next :
      (fuel rounds : ℕ) (br : BufferedReader) (p : Peer) (line : List ℕ) (br' : BufferedReader)
      (p' : Peer) (r : List Header × BufferedReader × Peer) (h : Header)
      → br_read_line rounds br p ≡ ok (some line, br', p')
      → br'.too_long ≡ false
      → starts_return line ≡ false
      → header_of libc line ≡ ok h
      → header_list_parse_headers libc fuel rounds br' p' ≡ ok r
      → header_list_parse_headers libc (suc fuel) rounds br p ≡ ok (h ∷ r.0, r.1, r.2)
  unfolding header_list_parse_headers
  parse_next fuel rounds br p line br' p' r h e f g made rest = ground (arith, e, f, g, made, rest)

  pub parse_lines :
      (ls : List (List ℕ)) (rounds room k : ℕ) (p : Peer)
      → AllLines room ls
      → (hs : AllHeaders ls) → room ≤ k
      → 3 ≤ k
      → p.input ≡ []
      → Parsed
          (header_list_parse_headers libc (suc (length ls)) (suc rounds) (lines_in (flat ls) k) p)
          ls
          hs
  unfolding header_list_parse_headers starts_return
  parse_lines [] rounds room k p a hs r h e = record {
    reader = lines_in [] (k + 1 + 1);
    peer = quiet p;
    parsed =
        rw
          (read_line rounds (13 ∷ []) [] k p
            ((λ q. ground (arith, q)), (λ q. ground (arith, q)), tt) (omega arith) (omega arith) e)
          refl;
  }
  parse_lines ([] ∷ ls) rounds room k p (t, pos, fits, starts, a) hs r h e = absurd (omega arith)
  parse_lines ((b ∷ l) ∷ ls) rounds room k p (t, pos, fits, starts, a) (h1, hs) r h e =
      let next =
        parse_lines ls rounds room (k + length (b ∷ l) + 1) (quiet p) a hs (omega arith)
          (omega arith) refl in
      record {
        reader = next.reader;
        peer = next.peer;
        parsed =
            parse_next (suc (length ls)) (suc rounds) _ p (b ∷ (l ++ 10 ∷ [])) _ (quiet p) _ _
              (read_line rounds (b ∷ l) (flat ls) k p t pos (omega arith) e) refl starts
              (header_made (b ∷ (l ++ 10 ∷ [])) h1) next.parsed;
      }

-- The first look at an empty buffer takes in all that a prompt peer sent.
line_end-zeros : (n : ℕ) → 0 < n → line_end (zeros n) ≡ ok 0
unfolding line_end
line_end-zeros zero h = absurd (omega arith)
line_end-zeros (suc n) h = refl

write_content :
    (n : ℕ) (bytes : List ℕ)
    → length bytes < n
    → write_at (zeros n) 0 bytes ≡ bytes ++ zeros (n - length bytes)
write_content n bytes h =
    ap (◌++◌ bytes) (drop-zeros (0 + length bytes) n (n - length bytes) (omega arith))

first_read :
    (n : ℕ) (p : Peer)
    → IsPrompt p
    → length p.input < n
    → (q : Peer) × (br_read (br_init n) p 0 ≡ (lines_in p.input (n - length p.input), q))
      × (q.input ≡ [])
unfolding br_read br_init
first_read n p prompt h =
    let size = length (zeros n) - 0 - 1 in
    let fits : length p.input ≤ size = omega (arith, length-replicate {A = ℕ} n 0) in
    let (got, left, on) = read_socket-IsPrompt p size prompt in
    (
      (read_socket p size).1,
      ap
            (λ (bytes : List ℕ). (
              record { buf = write_at (zeros n) 0 bytes; too_long = false },
              (read_socket p size).1,
            ))
            (got ∙ take_all size p.input fits)
          ∙ ap
              (λ (bytes : List ℕ).
                (record { buf = bytes; too_long = false }, (read_socket p size).1))
              (write_content n p.input h),
      left ∙ drop_all size p.input fits,
    )

look_again :
    (rounds : ℕ) (br : BufferedReader) (p : Peer)
    → line_end br.buf ≡ ok 0
    → br_read_line (suc rounds) br p ≡ br_read_line rounds (br_read br p 0).0 (br_read br p 0).1
unfolding br_read_line
look_again rounds br p h = rw (h) refl

pub first_line :
    (n rounds : ℕ) (l rest : List ℕ) (p : Peer)
    → IsPrompt p
    → p.input ≡ l ++ 10 ∷ rest
    → length p.input + (length l + 2) ≤ n
    → IsText l
    → 0 < length l
    → (q : Peer) × (br_read_line (suc (suc rounds)) (br_init n) p
        ≡ ok (some (l ++ 10 ∷ []), lines_in rest (n - length p.input + length l + 1), q))
      × (q.input ≡ [])
unfolding br_init
first_line n rounds l rest p prompt e fits t pos =
    let (q, read, done) = first_read n p prompt (omega arith) in
    (
      quiet q,
      look_again (suc rounds) (br_init n) p (line_end-zeros n (omega arith))
          ∙ ap (λ (x : BufferedReader × Peer). br_read_line (suc rounds) x.0 x.1) read
          ∙ ap (λ (c : List ℕ). br_read_line (suc rounds) (lines_in c (n - length p.input)) q) e
          ∙ read_line rounds l rest (n - length p.input) q t pos (omega arith) done,
      refl,
    )
