-- ===== src/Netcheck/Store/Content.antt =====
-- What the store keeps of each day where no system call fails (internal/netcheck/store.go): the bytes of
-- the day's file with those that are held back.
use mathlib.Core.List.{append-nil, append_assoc}
use pyck_debug_worker.Prelude.{
  ℕ, zero, suc, ◌-◌, [], ◌∷◌, ◌++◌, Option, none, some, Bool, true, false, ltb, leb, ◌==◌, length,
  ℕ_discrete, if◌then◌else◌, arith, ◌≡◌, refl, sym, ap, subst, ◌∙◌,
}
use pyck_debug_worker.Prelude.Text.{Text}
use pyck_debug_worker.Prelude.Assoc.{Assoc, lookup-insert}
use pyck_debug_worker.Netcheck.Store.{
  take_bytes, skip_bytes, buffer_size, File, no_errors, bytes_of, append_bytes, Written, write_out,
  flush_pending, buf_flush, write_bytes, buf_write,
}

abbrev pub Disk : Type 0
Disk = Assoc ℕ Text

pub bytes_of-append_bytes :
    (d day : ℕ) (bytes : Text) (disk : Disk)
    → bytes_of d (append_bytes day bytes disk)
      ≡ (if day == d then bytes_of d disk ++ bytes else bytes_of d disk)
unfolding bytes_of append_bytes
bytes_of-append_bytes d day bytes disk =
    ground (arith, lookup-insert ℕ_discrete d day (bytes_of day disk ++ bytes) disk)

-- All bytes of a day: those of its file, and those that the open file holds back for it.
abbrev pub whole : ℕ → File → Disk → Text
whole d f disk = bytes_of d disk ++ (if f.day == d then f.pending else [])

-- What bytes of a day are to another.
abbrev pub added : ℕ → ℕ → Text → Text
added d day bytes = if day == d then bytes else []

whole_step :
    (b : Bool) (old out rest pending bytes : Text)
    → out ++ rest ≡ pending ++ bytes
    → (if b then old ++ out else old) ++ (if b then rest else [])
      ≡ (old ++ (if b then pending else [])) ++ (if b then bytes else [])
whole_step true old out rest pending bytes e =
    append_assoc old out rest ∙ ap (λ t. old ++ t) e ∙ sym (append_assoc old pending bytes)
whole_step false old out rest pending bytes e = sym (append-nil (old ++ []))

-- A write that did not fail, of bytes behind what there was.
abbrev pub HasGrown : Text → File → Disk → Written → Type 0
HasGrown bytes f disk (e, f', disk') =
    (e ≡ none)
    × (f'.day ≡ f.day)
    × (f'.failed ≡ none)
    × ((d : ℕ) → whole d f' disk' ≡ whole d f disk ++ added d f.day bytes)

write_out-HasGrown :
    (out rest bytes : Text) (f : File) (disk : Disk)
    → f.failed ≡ none
    → out ++ rest ≡ f.pending ++ bytes
    → HasGrown bytes f disk (write_out none out rest f disk)
write_out-HasGrown out rest bytes f disk fine e = (
  refl,
  refl,
  fine,
  λ d.
      ap (λ t. t ++ (if f.day == d then rest else [])) (bytes_of-append_bytes d f.day out disk)
      ∙ whole_step (f.day == d) (bytes_of d disk) out rest f.pending bytes e,
)

take-skip : (n : ℕ) (s : Text) → take_bytes n s ++ skip_bytes n s ≡ s
take-skip zero s = refl
take-skip (suc n) [] = refl
take-skip (suc n) (c ∷ s) = ap (λ t. c ∷ t) (take-skip n s)

hold_step :
    (b : Bool) (old pending bytes : Text)
    → old ++ (if b then pending ++ bytes else [])
      ≡ (old ++ (if b then pending else [])) ++ (if b then bytes else [])
hold_step true old pending bytes = sym (append_assoc old pending bytes)
hold_step false old pending bytes = sym (append-nil (old ++ []))

hold-HasGrown :
    (bytes : Text) (f : File) (disk : Disk)
    → f.failed ≡ none
    → HasGrown bytes f disk (none, record f { pending = f.pending ++ bytes }, disk)
hold-HasGrown bytes f disk fine =
    (refl, refl, fine, λ d. hold_step (f.day == d) (bytes_of d disk) f.pending bytes)

if-HasGrown :
    (b : Bool) (bytes : Text) (f : File) (disk : Disk) (x y : Written)
    → HasGrown bytes f disk x
    → HasGrown bytes f disk y
    → HasGrown bytes f disk (if b then x else y)
if-HasGrown true bytes f disk x y gx gy = gx
if-HasGrown false bytes f disk x y gx gy = gy

write_bytes-HasGrown :
    (bytes pending : Text) (f : File) (disk : Disk)
    → f.failed ≡ none
    → f.pending ≡ pending
    → HasGrown bytes f disk (write_bytes no_errors bytes pending f disk)
write_bytes-HasGrown bytes [] f disk fine e =
    if-HasGrown (leb (length bytes) buffer_size) bytes f disk _ _
      (subst (λ p. HasGrown bytes f disk (none, record f { pending = p }, disk))
        (ap (λ p. p ++ bytes) e) (hold-HasGrown bytes f disk fine))
      (write_out-HasGrown bytes [] bytes f disk fine
        (append-nil bytes ∙ ap (λ p. p ++ bytes) (sym e)))
write_bytes-HasGrown bytes (c ∷ s) f disk fine e =
    if-HasGrown (leb (length ((c ∷ s) ++ bytes)) buffer_size) bytes f disk _ _
      (hold-HasGrown bytes f disk fine)
      (if-HasGrown (ltb buffer_size (length (skip_bytes (buffer_size - length f.pending) bytes)))
        bytes f disk _ _
        (write_out-HasGrown (f.pending ++ bytes) [] bytes f disk fine
          (append-nil (f.pending ++ bytes)))
        (write_out-HasGrown _ _ bytes f disk fine (
          append_assoc f.pending (take_bytes (buffer_size - length f.pending) bytes) _
          ∙ ap (λ t. f.pending ++ t) (take-skip (buffer_size - length f.pending) bytes))))

pub buf_write-HasGrown :
    (bytes : Text) (f : File) (disk : Disk)
    → f.failed ≡ none
    → HasGrown bytes f disk (buf_write no_errors bytes f disk)
unfolding buf_write
buf_write-HasGrown bytes f disk fine =
    subst
      (λ (o : Option Text). HasGrown bytes f disk (elim o as (λ (o : Option Text). Written) [
        | some e ↦ (some e, f, disk)
        | none ↦ write_bytes no_errors bytes f.pending f disk
      ]))
      (sym fine) (write_bytes-HasGrown bytes f.pending f disk fine refl)

-- A flush leaves all bytes with the file, and holds none back.
abbrev pub IsFlushed : File → Disk → Written → Type 0
IsFlushed f disk (e, f', disk') =
    (e ≡ none)
    × (f'.day ≡ f.day)
    × (f'.failed ≡ none)
    × (f'.pending ≡ [])
    × ((d : ℕ) → bytes_of d disk' ≡ whole d f disk)

flush_pending-IsFlushed :
    (pending : Text) (f : File) (disk : Disk)
    → f.failed ≡ none
    → f.pending ≡ pending
    → IsFlushed f disk (flush_pending none pending f disk)
flush_pending-IsFlushed [] f disk fine e =
    (refl, refl, fine, e, λ d. go (f.day == d) (bytes_of d disk) f.pending e)
  where
    go : (b : Bool) (old pending : Text) → pending ≡ [] → old ≡ old ++ (if b then pending else [])
    go true old pending none_left = sym (append-nil old) ∙ ap (λ p. old ++ p) (sym none_left)
    go false old pending none_left = sym (append-nil old)
flush_pending-IsFlushed (c ∷ s) f disk fine e = (
  refl,
  refl,
  fine,
  refl,
  λ d.
      bytes_of-append_bytes d f.day (c ∷ s) disk
      ∙ join_up (f.day == d) (bytes_of d disk) (c ∷ s)
      ∙ ap (λ p. bytes_of d disk ++ (if f.day == d then p else [])) (sym e),
)
  where
    join_up :
        (b : Bool) (old pending : Text)
        → (if b then old ++ pending else old) ≡ old ++ (if b then pending else [])
    join_up true old pending = refl
    join_up false old pending = sym (append-nil old)

pub buf_flush-IsFlushed :
    (f : File) (disk : Disk) → f.failed ≡ none → IsFlushed f disk (buf_flush no_errors f disk)
unfolding buf_flush
buf_flush-IsFlushed f disk fine =
    subst
      (λ (o : Option Text). IsFlushed f disk (elim o as (λ (o : Option Text). Written) [
        | some e ↦ (some e, f, disk)
        | none ↦ flush_pending none f.pending f disk
      ]))
      (sym fine) (flush_pending-IsFlushed f.pending f disk fine refl)
