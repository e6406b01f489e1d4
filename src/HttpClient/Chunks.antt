-- ===== src/HttpClient/Chunks.antt =====
-- How the loops of yuyu/http/http_connection.cc cut the stream: the heads, and the data of a chunk.
use yuyu.Common.{
  ℕ, zero, suc, ◌-◌, ◌≤◌, ◌<◌, ◌≡◌, refl, sym, ap, ◌∙◌, ◌⊎◌, inl, inr, true, false, true≢false,
  Option, some, ◌++◌, append_assoc, arith, ◌==◌, Bool-cases, length, take, drop, length-append,
  take-drop,
}
use yuyu.Common.Int.{ℤ, pos, negsuc}
use yuyu.Stream.{Reader, size}
use yuyu.Stream.Whole.{Obeys}
use yuyu.Http.{Text}
use yuyu.HttpSession.{Parser, Head, closed, received, is_end, parse_buffer, recv_head}

-- A stream whose reads hand out a content in order: a positive length is that of the bytes it put
-- down, at most what was asked for, and these are what the stream has next.
abbrev pub Carries : {S : Type 0} → Reader S → (S → Text) → Type 0
Carries {S = S} read content =
    (k : ℕ) (s : S)
    → is_end (read k s).0.0 ≡ false
    → (content s ≡ (read k s).0.1 ++ content (read k s).1)
      × (length (read k s).0.1 ≡ size (read k s).0.0)
      × (size (read k s).0.0 ≤ k)

pub is_end-size : (len : ℤ) → is_end len ≡ false → 0 < size len
is_end-size (negsuc k) h = absurd (true≢false h)
is_end-size (pos n) h = ground arith

pub is_end-zero : (len : ℤ) → is_end len ≡ true → size len ≡ 0
is_end-zero (negsuc k) h = refl
is_end-zero (pos n) h = ground arith

pub Carries-Obeys :
    {S : Type 0} (read : Reader S) (content : S → Text) → Carries read content → Obeys read
Carries-Obeys read content c k s = elim (Bool-cases (is_end (read k s).0.0)) [
  | inl ended ↦
      let nothing = is_end-zero (read k s).0.0 ended in (omega arith, λ h. absurd (omega arith))
  | inr more ↦ let (next, exact, fits) = c k s more in (fits, λ h. exact)
]

-- What a round makes of the buffer.
pub data Parsed {P D : Type 0} (parser : Parser P D) (buffer : Text)
    : Head P ⊎ (P × Text) → Type 0 where
  fails : Parsed parser buffer (inl closed)
  finds :
      {p : P} {q : Text} (used : Text)
      → buffer ≡ used ++ q
      → parser.is_finished p ≡ true
      → parser.has_error p ≡ false
      → Parsed parser buffer (inl (received p q))
  goes_on :
      {p : P} {q : Text} (used : Text) → buffer ≡ used ++ q → Parsed parser buffer (inr (p, q))

module _ {S P D : Type 0} (read : Reader S) (parser : Parser P D) (buff_size : ℕ) where
  pub parse_buffer-Parsed :
      (p : P) (buffer : Text) → Parsed parser buffer (parse_buffer read parser buff_size p buffer)
  unfolding parse_buffer
  parse_buffer-Parsed p buffer =
      let p' = (parser.execute p buffer).0 in
      let n = (parser.execute p buffer).1 in
      let cut = sym (take-drop n buffer) in
      elim (Bool-cases (parser.has_error p')) [
        | inl error ↦ rw error fails
        | inr clean ↦ elim (Bool-cases (length (drop n buffer) == buff_size)) [
          | inl full ↦ rw (clean, full) fails
          | inr room ↦ elim (Bool-cases (parser.is_finished p')) [
            | inl finished ↦ rw (clean, room, finished) (finds (take n buffer) cut finished clean)
            | inr open_ ↦ rw (clean, room, open_) (goes_on (take n buffer) cut)
          ]
        ]
      ]

  -- The loop for a head ends, and what it finds stands behind the bytes that were used, in what was
  -- waiting and in the stream.
  pub record HeadFound (content : S → Text) (wire : Text) (r : Option (Head P × S)) : Type 0 where
    pub head : Head P
    pub after : S
    pub run : r ≡ some (head, after)
    pub found :
        (p : P) (pending : Text)
        → head ≡ received p pending
        → (used : Text) × (wire ≡ used ++ (pending ++ content after))
          × (parser.is_finished p ≡ true)
          × (parser.has_error p ≡ false)

  received-injective :
      {p p' : P} {q q' : Text} → received p q ≡ received p' q' → (p ≡ p') × (q ≡ q')
  received-injective e = (cc, cc)

  closed-found : {T : Type 0} (p : P) (q : Text) → closed ≡ received p q → T
  closed-found p q e = absurd (cc)

  HeadFound-closed :
      (content : S → Text) (wire : Text) (s : S) → HeadFound content wire (some (closed, s))
  HeadFound-closed content wire s = record {
    head = closed;
    after = s;
    run = refl;
    found = λ p q e. closed-found p q e;
  }

  HeadFound-behind :
      (content : S → Text) (used wire : Text) (r : Option (Head P × S))
      → HeadFound content wire r
      → HeadFound content (used ++ wire) r
  HeadFound-behind content used wire r h = record {
    head = h.head;
    after = h.after;
    run = h.run;
    found = λ p q e.
        let (more, cut, finished, clean) = h.found p q e in
        (used ++ more, ap (◌++◌ used) cut ∙ sym (append_assoc used more _), finished, clean);
  }

  -- A round goes on with `rest`.
  abbrev pub after_parse :
      (P → Text → Option (Head P × S)) → S → Head P ⊎ (P × Text) → Option (Head P × S)
  after_parse rest s parsed = elim parsed [ inl head ↦ some (head, s) | inr (p, q) ↦ rest p q ]

  pub after_parse-HeadFound :
      (content : S → Text) (buffer : Text) (s : S) (rest : P → Text → Option (Head P × S))
      (parsed : Head P ⊎ (P × Text))
      → Parsed parser buffer parsed
      → ((p : P) (q : Text) → HeadFound content (q ++ content s) (rest p q))
      → HeadFound content (buffer ++ content s) (after_parse rest s parsed)
  after_parse-HeadFound content buffer s rest _ fails later = HeadFound-closed content _ s
  after_parse-HeadFound content buffer s rest _ (finds {p} {q} used cut finished clean) later =
      record {
        head = received p q;
        after = s;
        run = refl;
        found = λ p' q' e.
            let (same_p, same_q) = received-injective e in
            (
              used,
              ap (λ b. b ++ content s) cut
                  ∙ append_assoc used q (content s)
                  ∙ ap (λ x. used ++ (x ++ content s)) same_q,
              ap parser.is_finished (sym same_p) ∙ finished,
              ap parser.has_error (sym same_p) ∙ clean,
            );
      }
  after_parse-HeadFound content buffer s rest _ (goes_on {p} {q} used cut) later =
      rw (ap (λ b. b ++ content s) cut ∙ append_assoc used q (content s))
        (HeadFound-behind content used (q ++ content s) _ (later p q))

  pub recv_head-HeadFound :
      (content : S → Text) (fuel : ℕ) (p : P) (pending : Text) (s : S)
      → Carries read content
      → length (content s) < fuel
      → HeadFound content (pending ++ content s) (recv_head read parser buff_size fuel p pending s)
  unfolding recv_head
  recv_head-HeadFound content zero p pending s c h = absurd (omega arith)
  recv_head-HeadFound content (suc fuel) p pending s c h =
      let s' = (read (buff_size - length pending) s).1 in
      let bytes = (read (buff_size - length pending) s).0.1 in
      elim (Bool-cases (is_end (read (buff_size - length pending) s).0.0)) [
        | inl ended ↦ rw ended (HeadFound-closed content _ s')
        | inr more ↦
            let (next, exact, fits) = c (buff_size - length pending) s more in
            let some_bytes = is_end-size (read (buff_size - length pending) s).0.0 more in
            let shorter : length (content s') < fuel =
              omega
                (arith, h, ap length next, length-append bytes (content s'), exact, some_bytes) in
            rw more (
              rw (ap (◌++◌ pending) next ∙ sym (append_assoc pending bytes (content s'))) (
                after_parse-HeadFound content (pending ++ bytes) s'
                  (λ p' q. recv_head read parser buff_size fuel p' q s')
                  (parse_buffer read parser buff_size p (pending ++ bytes))
                  (parse_buffer-Parsed p (pending ++ bytes))
                  (λ p' q. recv_head-HeadFound content fuel p' q s' c shorter)))
      ]
