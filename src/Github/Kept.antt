-- ===== src/Github/Kept.antt =====
-- providers/github/util.go and connection.go: what the buffer keeps, and that terminal modes survive
-- the wire.
use mathlib.Core.List.{append_assoc, append-nil}
use codespace_ssh_gateway.Shared.{
  ℕ, zero, suc, ◌+◌, ◌-◌, ◌*◌, ◌/◌, ◌%◌, ◌^◌, ◌≤◌, ◌<◌, true, false, List, [], ◌∷◌, ◌++◌, ◌==◌,
  nat_eq, ltb, leb, Option, none, some, length, take, take_of_short, length-take_long,
  take-append_long, take-append_short, ◌||◌, if◌then◌else◌, ◌≡◌, refl, ◌∙◌, ap, arith, inl, inr,
  Bool-cases, leb→le, All,
}
use codespace_ssh_gateway.Github.Streams.{
  SafeBuffer, new_safe_buffer, write, write_all, Modes, set_mode, read_modes, or_usual, usual_modes,
  parse_terminal_modes,
}

abbrev pub concat : List (List ℕ) → List ℕ
concat [] = []
concat (p ∷ ps) = p ++ concat ps

-- A buffer that holds the beginning of what was written.
abbrev pub holding : ℕ → List ℕ → SafeBuffer
holding limit bytes = record { buf = take limit bytes; limit = limit }

cut_lem : (room : ℕ) (p : List ℕ) → (if leb (length p) room then p else take room p) ≡ take room p
cut_lem room p = elim (Bool-cases (leb (length p) room)) [
  | inl fits ↦ rw (fits, take_of_short room p (leb→le (length p) room fits)) refl
  | inr over ↦ rw over refl
]

write-holding :
    (limit : ℕ) (bytes p : List ℕ) → (write p (holding limit bytes)).0 ≡ holding limit (bytes ++ p)
unfolding write
write-holding limit bytes p = elim (Bool-cases (ltb (length bytes) limit)) [
  | inl room ↦
      let short : length bytes ≤ limit = ground (arith, room) in
      let some_room : ltb 0 (limit - length bytes) ≡ true = ground (arith, room) in
      rw
        (
          take_of_short limit bytes short,
          some_room,
          cut_lem (limit - length bytes) p,
          take-append_short limit bytes p short,
        )
        refl
  | inr full ↦
      let long : limit ≤ length bytes = ground (arith, full) in
      let no_room : ltb 0 (limit - length (take limit bytes)) ≡ false =
        ground (arith, length-take_long limit bytes long) in
      rw (no_room, take-append_long limit bytes p long) refl
]

write_all-holding :
    (limit : ℕ) (bytes : List ℕ) (ps : List (List ℕ))
    → write_all ps (holding limit bytes) ≡ holding limit (bytes ++ concat ps)
unfolding write_all
write_all-holding limit bytes [] = rw (append-nil bytes) refl
write_all-holding limit bytes (p ∷ ps) =
    rw
      (
        write-holding limit bytes p,
        write_all-holding limit (bytes ++ p) ps,
        append_assoc bytes p (concat ps),
      )
      refl

take_nil : (n : ℕ) → take {A = ℕ} n [] ≡ []
take_nil zero = refl
take_nil (suc n) = refl

-- However a child's output is cut into writes, the buffer keeps its first `limit` bytes, and each
-- write reports that it took all it was given.
pub write_all-new_safe_buffer :
    (limit : ℕ) (ps : List (List ℕ)) (p : List ℕ)
    → ((write_all ps (new_safe_buffer limit)).buf ≡ take limit (concat ps))
      × ((write p (write_all ps (new_safe_buffer limit))).1 ≡ length p)
unfolding new_safe_buffer write
write_all-new_safe_buffer limit ps p =
    let empty : record { buf = []; limit = limit } ≡ holding limit [] = rw (take_nil limit) refl in
    (ap (λ b. (write_all ps b).buf) empty ∙ ap (λ b. b.buf) (write_all-holding limit [] ps), refl)

-- An opcode and its argument, as they are sent; the argument is a uint32.
abbrev pub mode_bytes : ℕ → ℕ → List ℕ
mode_bytes op v = op ∷ (v / 16777216 % 256) ∷ (v / 65536 % 256) ∷ (v / 256 % 256) ∷ (v % 256) ∷ []

unfoldable pub encode_modes : List (ℕ × ℕ) → List ℕ
encode_modes [] = []
encode_modes ((op, v) ∷ ms) = mode_bytes op v ++ encode_modes ms

unfoldable pub set_modes : List (ℕ × ℕ) → Modes → Modes
set_modes [] m = m
set_modes ((op, v) ∷ ms) m = set_modes ms (set_mode m op v)

-- An opcode that does not end the list, and an argument that fits.
abbrev pub Sendable : ℕ × ℕ → Type 0
Sendable (op, v) = ((op == 0) ≡ false) × (v < 2 ^ 32)

bytes_lem :
    (v : ℕ)
    → v < 2 ^ 32
    → v / 16777216 % 256 * 2 ^ 24 + v / 65536 % 256 * 2 ^ 16 + v / 256 % 256 * 2 ^ 8 + v % 256 ≡ v
bytes_lem v h = omega arith

end_lem : (rest : List ℕ) (m : Modes) → read_modes (0 ∷ rest) m ≡ m
unfolding read_modes
end_lem [] m = refl
end_lem (a ∷ []) m = refl
end_lem (a ∷ b ∷ []) m = refl
end_lem (a ∷ b ∷ c ∷ []) m = refl
end_lem (a ∷ b ∷ c ∷ d ∷ rest) m = refl

read_modes-encode_modes :
    (ms : List (ℕ × ℕ)) (rest : List ℕ) (m : Modes)
    → All Sendable ms
    → read_modes (encode_modes ms ++ (0 ∷ rest)) m ≡ set_modes ms m
unfolding read_modes encode_modes set_modes
read_modes-encode_modes [] rest m s = end_lem rest m
read_modes-encode_modes ((op, v) ∷ ms) rest m s =
    rw (s.0.0, bytes_lem v s.0.1) (read_modes-encode_modes ms rest (set_mode m op v) s.1)

-- What a map of modes holds for an opcode.
unfoldable pub value_of : ℕ → Modes → Option ℕ
value_of k [] = none
value_of k ((op, v) ∷ m) = if op == k then some v else value_of k m

abbrev pub or_else : Option ℕ → Option ℕ → Option ℕ
or_else none o = o
or_else (some v) o = some v

or_else-none : (o : Option ℕ) → or_else o none ≡ o
or_else-none none = refl
or_else-none (some v) = refl

-- The value that a client sent last for an opcode.
unfoldable pub last_of : ℕ → List (ℕ × ℕ) → Option ℕ
last_of k [] = none
last_of k ((op, v) ∷ ms) = or_else (last_of k ms) (if op == k then some v else none)

-- What a client's modes should mean: what it sent, and where it sent none, ECHO on and both speeds
-- 14400.
unfoldable pub meant : List (ℕ × ℕ) → ℕ → Option ℕ
meant [] k = if k == 53 then some 1 else if (k == 128) || (k == 129) then some 14400 else none
meant (m ∷ ms) k = last_of k (m ∷ ms)

value_of-set_mode :
    (k : ℕ) (m : Modes) (op v : ℕ)
    → value_of k (set_mode m op v) ≡ (if op == k then some v else value_of k m)
unfolding value_of set_mode
value_of-set_mode k [] op v = refl
value_of-set_mode k ((o, w) ∷ m) op v = ground (arith, value_of-set_mode k m op v)

value_of-set_modes :
    (k : ℕ) (ms : List (ℕ × ℕ)) (m : Modes)
    → value_of k (set_modes ms m) ≡ or_else (last_of k ms) (value_of k m)
unfolding set_modes last_of
value_of-set_modes k [] m = refl
value_of-set_modes k ((op, v) ∷ ms) m =
    ground (arith, value_of-set_modes k ms (set_mode m op v), value_of-set_mode k m op v)

-- A map of modes in which one was set is not empty.
or_usual-set_modes :
    (ms : List (ℕ × ℕ)) (a : ℕ × ℕ) (m : Modes)
    → or_usual (set_modes ms (a ∷ m)) ≡ set_modes ms (a ∷ m)
unfolding set_modes set_mode
or_usual-set_modes [] a m = refl
or_usual-set_modes ((op, v) ∷ ms) (o, w) m = elim (Bool-cases (o == op)) [
  | inl h ↦ rw h (or_usual-set_modes ms (o, v) m)
  | inr h ↦ rw h (or_usual-set_modes ms (o, w) (set_mode m op v))
]

value_of-usual_modes : (k : ℕ) → value_of k usual_modes ≡ meant [] k
unfolding value_of meant
value_of-usual_modes k = ground arith

-- Where nothing was set, the map that is read is that of the usual modes.
value_of-or_usual :
    (ms : List (ℕ × ℕ)) (k : ℕ) → value_of k (or_usual (set_modes ms [])) ≡ meant ms k
unfolding set_modes set_mode meant value_of
value_of-or_usual [] k = value_of-usual_modes k
value_of-or_usual ((op, v) ∷ ms) k =
    ap (value_of k) (or_usual-set_modes ms (op, v) [])
    ∙ value_of-set_modes k ((op, v) ∷ ms) []
    ∙ or_else-none (last_of k ((op, v) ∷ ms))

-- The terminal modes of a client survive the wire: of opcodes that are not 0, with arguments of 32
-- bits, encoded and ended by 0, the map that is read holds for each opcode the argument sent last for
-- it and nothing for one that was not sent, whatever follows on the wire. Where none is sent, it holds
-- ECHO (53) on and both speeds (128, 129) 14400, and nothing else.
pub parse_terminal_modes-encode_modes :
    (ms : List (ℕ × ℕ)) (rest : List ℕ) (k : ℕ)
    → All Sendable ms
    → value_of k (parse_terminal_modes (encode_modes ms ++ (0 ∷ rest))) ≡ meant ms k
unfolding parse_terminal_modes
parse_terminal_modes-encode_modes ms rest k s =
    ap (λ m. value_of k (or_usual m)) (read_modes-encode_modes ms rest [] s)
    ∙ value_of-or_usual ms k
