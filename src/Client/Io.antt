-- ===== src/Client/Io.antt =====
-- client/file.go: splitPath, and reading, writing and seeking in an open file. `max` stands for what
-- File.maxIO answers, which a file's life does not change.
pub mod ReadAt
use Prim.Native.Nat.{min}
use p.Common.{ℕ, zero, suc, ◌+◌, ◌-◌, ◌%◌, ◌^◌, List, [], ◌∷◌, ◌++◌}
use p.Common.Tests.{ltb, leb, ◌==◌, if◌then◌else◌}
use p.Common.Lists.{length, take, drop}
use p.Wire.Types.{Stat, Message, tread, rread, twrite, rwrite}
use p.Wire.Fcall.Types.{msg_type}
use p.Client.Rpc.{Reply, replied, rpc_failed, Rpc}

-- The loop of splitPath, with the element `p[start:i]` so far.
unfoldable pub split_loop : List ℕ → List ℕ → List (List ℕ)
split_loop [] [] = []
split_loop [] (c ∷ cs) = (c ∷ cs) ∷ []
split_loop (b ∷ p) elem =
    let at_slash = split_loop p [] in
    let in_elem = split_loop p (elem ++ (b ∷ [])) in
    if b == 47 then (if length elem == 0 then at_slash else elem ∷ at_slash) else in_elem

unfoldable pub split_path : List ℕ → List (List ℕ)
split_path p = split_loop p []

-- The error that ends a call: none, io.EOF, io.ErrShortWrite, that of the call, or a reply of
-- another type. `out_of_fuel` is no Go value.
pub data IoEnd : Type 0 where
  fine end_of_file short_write out_of_fuel : IoEnd
  call_failed : List ℕ → IoEnd
  wrong_reply : ℕ → IoEnd

-- What the loop of readAt does with a reply, for a chunk of `n` bytes behind those that are in the
-- buffer; `next` is its next round.
unfoldable pub on_read :
    {S : Type 0} → S → Reply → ℕ → List ℕ → (List ℕ → S × List ℕ × IoEnd) → S × List ℕ × IoEnd
on_read s (rpc_failed e) n buf next = (s, buf, call_failed e)
on_read s (replied (rread bytes)) n buf next =
    let got = take n bytes in
    let more = next (buf ++ got) in
    if ltb (length got) n then (s, buf ++ got, end_of_file) else more
on_read s (replied m) n buf next = (s, buf, wrong_reply (msg_type m))

-- The loop of File.readAt for `len` bytes more at `off`: the bytes in the buffer at its end, and
-- the error.
unfoldable pub read_at_loop :
    {S : Type 0} → Rpc S → ℕ → ℕ → ℕ → S → ℕ → ℕ → List ℕ → S × List ℕ × IoEnd
read_at_loop rpc fid max fuel s zero off buf = (s, buf, fine)
read_at_loop rpc fid max zero s (suc len) off buf = (s, buf, out_of_fuel)
read_at_loop rpc fid max (suc fuel) s (suc len) off buf =
    let n = min (suc len) max in
    let r = rpc s (tread fid (off % 2 ^ 64) (n % 2 ^ 32)) in
    on_read r.0 r.1 n buf (λ buf'. read_at_loop rpc fid max fuel r.0 (suc len - n) (off + n) buf')

-- File.readAt into a buffer of `len` bytes. A round of each byte is enough.
unfoldable pub read_at : {S : Type 0} → Rpc S → ℕ → ℕ → S → ℕ → ℕ → S × List ℕ × IoEnd
read_at rpc fid max s len off = read_at_loop rpc fid max len s len off []

-- What the loop of writeAt does with a reply, for the bytes `p` of which `total` went before.
unfoldable pub on_write :
    {S : Type 0} → S → Reply → List ℕ → ℕ → (ℕ → S × ℕ × IoEnd) → S × ℕ × IoEnd
on_write s (rpc_failed e) p total next = (s, total, call_failed e)
on_write s (replied (rwrite count)) p total next =
    let more = next count in
    if count == 0
    then (s, total, short_write)
    else if leb (length p) count
    then (s, total + count, fine)
    else more
on_write s (replied m) p total next = (s, total, wrong_reply (msg_type m))

-- The loop of File.writeAt on the bytes that are still to be written: how many the server says it
-- wrote, and the error. A server that claims more than was left ends the loop too.
unfoldable pub write_at_loop : {S : Type 0} → Rpc S → ℕ → ℕ → ℕ → S → List ℕ → ℕ → ℕ → S × ℕ × IoEnd
write_at_loop rpc fid max fuel s [] off total = (s, total, fine)
write_at_loop rpc fid max zero s (b ∷ p) off total = (s, total, out_of_fuel)
write_at_loop rpc fid max (suc fuel) s (b ∷ p) off total =
    let chunk = take max (b ∷ p) in
    let r = rpc s (twrite fid ((off + total) % 2 ^ 64) chunk) in
    on_write r.0 r.1 (b ∷ p) total
      (λ n. write_at_loop rpc fid max fuel r.0 (drop n (b ∷ p)) off (total + n))

unfoldable pub write_at : {S : Type 0} → Rpc S → ℕ → ℕ → S → List ℕ → ℕ → S × ℕ × IoEnd
write_at rpc fid max s p off = write_at_loop rpc fid max (length p) s p off 0

-- File.Read with a buffer of `len` bytes: one request at the file's offset, which moves on by what
-- was read. The results are the new offset, the bytes and the error.
unfoldable pub on_file_read : {S : Type 0} → S → Reply → ℕ → ℕ → S × ℕ × List ℕ × IoEnd
on_file_read s (rpc_failed e) n offset = (s, offset, [], call_failed e)
on_file_read s (replied (rread bytes)) n offset =
    let got = take n bytes in
    (s, offset + length got, got, if length got == 0 then end_of_file else fine)
on_file_read s (replied m) n offset = (s, offset, [], wrong_reply (msg_type m))

unfoldable pub file_read : {S : Type 0} → Rpc S → ℕ → ℕ → S → ℕ → ℕ → S × ℕ × List ℕ × IoEnd
file_read rpc fid max s offset len =
    let n = min len max in
    let r = rpc s (tread fid (offset % 2 ^ 64) (n % 2 ^ 32)) in on_file_read r.0 r.1 n offset

-- File.Write: writeAt at the file's offset, which moves on by what was written.
unfoldable pub file_write : {S : Type 0} → Rpc S → ℕ → ℕ → S → ℕ → List ℕ → S × ℕ × ℕ × IoEnd
file_write rpc fid max s offset p =
    let (s', n, e) = write_at rpc fid max s p offset in (s', offset + n, n, e)
