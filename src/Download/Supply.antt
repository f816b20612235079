-- ===== src/Download/Supply.antt =====
-- A piece on its way from a seeder that has it to the store of a download.
use peer_to_peer_distributed.Base.{
  ℕ, zero, suc, ◌+◌, ◌*◌, ◌<◌, ◌≤◌, ◌≡◌, refl, sym, ◌∙◌, ap, subst, Bool, true, false, not, some,
  List, [], ◌∷◌, arith, length, take, drop, length-drop, ◌++◌, length-append, All, leb, ◌==◌,
  ==_iff, if_cases,
}
use peer_to_peer_distributed.Text.{Str, str_ne, compare_str_self}
use peer_to_peer_distributed.OrderedMap.{find}
use peer_to_peer_distributed.Net.{Answer, Progress, Incoming, send_msg}
use peer_to_peer_distributed.Net.Transfer.{IsProgress, moves}
use peer_to_peer_distributed.Buffer.{u32_bytes}
use peer_to_peer_distributed.Buffer.RoundTrip.{length-le_bytes}
use peer_to_peer_distributed.Protocol.{MsgType, piece_size, max_payload, opcode}
use peer_to_peer_distributed.Sha1.{hash_buffer}
use peer_to_peer_distributed.PieceStore.{
  Contents, PieceStore, marked, piece_len, write_bytes, write_loop, finish_write, read_piece,
  write_piece,
}
use peer_to_peer_distributed.PieceStore.Verified.{StoreValid, piece, piece_len-le}
use peer_to_peer_distributed.PieceStore.Transfer.{IsMove, read_loop-read_bytes}
use peer_to_peer_distributed.Seeder.{Shares, piece_reply, serve_peer}
use peer_to_peer_distributed.Seeder.Keys.{ShareKey, share_ord}
use peer_to_peer_distributed.Seeder.Fetch.{
  piece_request, fetch_piece, fetch_piece-reply, reply_wire, reply_of, answered, accept_piece_reply,
}
use peer_to_peer_distributed.Seeder.Bounds.{length-read_bytes}
use peer_to_peer_distributed.Download.Workers.{attempt_piece, write_fetched}
use peer_to_peer_distributed.Download.Workers.Shape.{shape}

-- While pwrite moves something each time, and is called often enough, the loop comes to its end.
write_loop_moves :
    (answers : List Answer) (pos : ℕ) (bs : Str) (f : Contents)
    → All IsMove answers
    → length bs ≤ length answers
    → (write_loop answers pos bs f).0 ≡ Progress.done
unfolding write_loop
write_loop_moves answers pos [] f a h = refl
write_loop_moves [] pos (x ∷ p) f a h = elim h [ ]
write_loop_moves (Answer.moved zero ∷ answers) pos (x ∷ p) f a h = elim a.0 [ ]
write_loop_moves (Answer.moved (suc k) ∷ answers) pos (x ∷ p) f a h =
    let part = x ∷ take k p in
    write_loop_moves answers (pos + length part) (drop k p) (write_bytes pos part f) a.1
      (omega (arith, length-drop k p))
write_loop_moves (Answer.interrupted ∷ answers) pos (x ∷ p) f a h = elim a.0 [ ]
write_loop_moves (Answer.error ∷ answers) pos (x ∷ p) f a h = elim a.0 [ ]

finish_write-done :
    (i : ℕ) (s : PieceStore) (r : Progress × Contents)
    → r.0 ≡ Progress.done
    → (finish_write i s r).0 ≡ Progress.done
finish_write-done i s (Progress.done, f) h = refl
finish_write-done i s (Progress.closed, f) h = cc
finish_write-done i s (Progress.broken, f) h = cc
finish_write-done i s (Progress.waiting, f) h = cc

same_hash : (a b : Str) → a ≡ b → str_ne a b ≡ false
same_hash a b e = subst (λ x. str_ne a x ≡ false) e (rw (compare_str_self a, str_ne) refl)

not_above : (n i : ℕ) → i < n → leb n i ≡ false
not_above n i h = ground (arith, h)

not_both : (b : Bool) → b ≡ true → not b ≡ true → ⊥
not_both true h k = cc
not_both false h k = cc

-- The right bytes are written.
write_piece-done :
    (writes : List Answer) (i : ℕ) (bs hash : Str) (s : PieceStore)
    → i < s.piece_count
    → length bs ≡ piece_len s i
    → hash_buffer bs ≡ hash
    → s.opened ≡ true
    → All IsMove writes
    → length bs ≤ length writes
    → (write_piece writes i bs hash s).0 ≡ Progress.done
unfolding write_piece
write_piece-done writes i bs hash s l fits right o moves enough =
    if_cases Done (leb s.piece_count i) _ _ (λ e. cc (e, not_above s.piece_count i l))
      λ _.
        if_cases Done (not (length bs == piece_len s i)) _ _
          (λ e.
            absurd (
              not_both (length bs == piece_len s i) ((==_iff (length bs) (piece_len s i)).1 fits)
                e))
          λ _.
            if_cases Done (str_ne (hash_buffer bs) hash) _ _
              (λ e. cc (e, same_hash (hash_buffer bs) hash right))
              λ _.
                if_cases Done (not s.opened) _ _ (λ e. absurd (not_both s.opened o e))
                  λ _.
                    finish_write-done i s (write_loop writes (i * piece_size) bs s.contents)
                      (write_loop_moves writes (i * piece_size) bs s.contents moves enough)
  where
    Done : Progress × PieceStore → Type 0
    Done r = r.0 ≡ Progress.done

-- A marked piece is read.
read_piece-done :
    (reads : List Answer) (i : ℕ) (t : PieceStore)
    → i < t.piece_count
    → t.opened ≡ true
    → marked t.have i ≡ true
    → All IsMove reads
    → piece_len t i ≤ length reads
    → read_piece reads i t ≡ (Progress.done, piece t i)
unfolding read_piece
read_piece-done reads i t l o m moves enough =
    if_cases Read (not t.opened) _ _ (λ e. absurd (not_both t.opened o e))
      λ _.
        if_cases Read (leb t.piece_count i) _ _ (λ e. cc (e, not_above t.piece_count i l))
          λ _.
            if_cases Read (not (marked t.have i)) _ _ (λ e. absurd (not_both (marked t.have i) m e))
              λ _.
                read_loop-read_bytes reads (i * piece_size) (piece_len t i) t.contents moves enough
  where
    Read : Progress × Str → Type 0
    Read r = r ≡ (Progress.done, piece t i)

piece_len-shape : (s t : PieceStore) (i : ℕ) → shape s ≡ shape t → piece_len s i ≡ piece_len t i
unfolding piece_len
piece_len-shape s t i e = cc (ap (λ x. x.0) e, ap (λ x. x.1) e)

-- The answer with a whole piece is not above MAX_PAYLOAD.
piece_reply-length :
    (hashes : ℕ → Str) (t : PieceStore) (i : ℕ)
    → StoreValid hashes t
    → i < t.piece_count
    → length (piece_reply i (Progress.done, piece t i)).payload ≡ 4 + piece_len t i
piece_reply-length hashes t i v l =
    let four : length (u32_bytes i) ≡ 4 = unfold u32_bytes in length-le_bytes 4 i in
    omega (
      arith,
      length-append (u32_bytes i) (piece t i),
      four,
      length-read_bytes (i * piece_size) (piece_len t i) t.contents,
    )

-- A piece that a seeder has marked, in a valid store, gets to a store of the same file: the attempt of
-- the worker that holds it succeeds. The request is sent whole, and its message is not above
-- MAX_PAYLOAD; the seeder's answer arrives on the connection, and is read with progress and in enough
-- steps; the seeder's reads and the worker's writes move something each time and are called often
-- enough. The two files are open.
pub supplied_piece :
    (hashes : ℕ → Str) (sends reads writes : List Answer) (arriving : Incoming) (behind : Str)
    (now i : ℕ) (shares : Shares) (k : ShareKey) (t s : PieceStore)
    → find k shares ≡ some t
    → StoreValid hashes t
    → t.opened ≡ true
    → i < t.piece_count
    → marked t.have i ≡ true
    → s.opened ≡ true
    → shape s ≡ shape t
    → 12 + length k.group + length k.file ≤ max_payload
    → (send_msg (opcode MsgType.piece_request) 0 (piece_request k i) sends).0 ≡ Progress.done
    → arriving.stream
      ≡ reply_wire (serve_peer reads shares (piece_request k i) MsgType.piece_request) ++ behind
    → All IsProgress arriving.answers
    → 16 + piece_len t i ≤ moves arriving.answers
    → All IsMove reads
    → piece_len t i ≤ length reads
    → All IsMove writes
    → piece_len t i ≤ length writes
    → (attempt_piece hashes i
        (record { fetched = fetch_piece sends arriving k i; writes = writes; now = now })
        s).0
      ≡ Progress.done
unfolding attempt_piece serve_peer
supplied_piece hashes sends reads writes arriving behind now i shares k t s found v ot l m os same
      request sent arrives moving enough mr er mw ew =
    let count : s.piece_count ≡ t.piece_count = ap (λ x. x.1) same in
    let fits : length (piece t i) ≡ piece_len s i =
      length-read_bytes (i * piece_size) (piece_len t i) t.contents
      ∙ sym (piece_len-shape s t i same) in
    let read = read_piece-done reads i t l ot m mr er in
    let reply : serve_peer reads shares (piece_request k i) MsgType.piece_request
        ≡ piece_reply i (Progress.done, piece t i) =
      answered reads shares k i (omega (arith, request)) (omega (arith, request))
        (omega (arith, v.count, l))
      ∙ ap (reply_of reads i) found
      ∙ ap (piece_reply i) read in
    let small = piece_len-le hashes t v i l in
    let long = piece_reply-length hashes t i v l in
    let fetched : fetch_piece sends arriving k i ≡ some (piece t i) =
      fetch_piece-reply sends arriving k i (piece_reply i (Progress.done, piece t i)) behind sent
        (arrives ∙ ap (λ r. reply_wire r ++ behind) reply) (omega (arith, long, small)) moving
        (omega (arith, long, enough))
      ∙ accept_piece_reply i (Progress.done, piece t i) (omega (arith, v.count, l)) in
    ap (λ o. (write_fetched (hashes i) writes i s o).0) fetched
    ∙ write_piece-done writes i (piece t i) (hashes i) s (omega (arith, l, count)) fits
        (v.verified i l m) os mw
        (omega (arith, ew, length-read_bytes (i * piece_size) (piece_len t i) t.contents))
