-- ===== src/Worker/Calls.antt =====
-- What the system calls of a worker (src/worker_runtime.cc) move, watch, open and close.
use rtb_engine.Base.{
  ℕ, ◌≡◌, refl, sym, ap, ◌∙◌, Bool, true, false, List, [], ◌∷◌, ◌++◌, if◌then◌else◌, ◌==◌,
}
use mathlib.Core.List.{append_assoc}
use rtb_engine.Numbers.{pos, negsuc}
use rtb_engine.Worker.{SystemCall, sends, receives, watch, register, unregister, close, wake, opens}

-- The bytes that were written to a connection, and the bytes that were read from it.
abbrev pub sent_bytes : List SystemCall → List ℕ
sent_bytes [] = []
sent_bytes (sends fd bytes ∷ calls) = bytes ++ sent_bytes calls
sent_bytes (receives fd bytes ∷ calls) = sent_bytes calls
sent_bytes (watch fd write updated ∷ calls) = sent_bytes calls
sent_bytes (register fd added ∷ calls) = sent_bytes calls
sent_bytes (unregister fd ∷ calls) = sent_bytes calls
sent_bytes (close fd ∷ calls) = sent_bytes calls
sent_bytes (wake fd ∷ calls) = sent_bytes calls
sent_bytes (opens fd ∷ calls) = sent_bytes calls

abbrev pub received_bytes : List SystemCall → List ℕ
received_bytes [] = []
received_bytes (sends fd bytes ∷ calls) = received_bytes calls
received_bytes (receives fd bytes ∷ calls) = bytes ++ received_bytes calls
received_bytes (watch fd write updated ∷ calls) = received_bytes calls
received_bytes (register fd added ∷ calls) = received_bytes calls
received_bytes (unregister fd ∷ calls) = received_bytes calls
received_bytes (close fd ∷ calls) = received_bytes calls
received_bytes (wake fd ∷ calls) = received_bytes calls
received_bytes (opens fd ∷ calls) = received_bytes calls

pub sent_bytes-append : (k l : List SystemCall) → sent_bytes (k ++ l) ≡ sent_bytes k ++ sent_bytes l
sent_bytes-append [] l = refl
sent_bytes-append (sends fd bytes ∷ k) l =
    ap (λ u. bytes ++ u) (sent_bytes-append k l) ∙ sym (append_assoc bytes _ _)
sent_bytes-append (receives fd bytes ∷ k) l = sent_bytes-append k l
sent_bytes-append (watch fd write updated ∷ k) l = sent_bytes-append k l
sent_bytes-append (register fd added ∷ k) l = sent_bytes-append k l
sent_bytes-append (unregister fd ∷ k) l = sent_bytes-append k l
sent_bytes-append (close fd ∷ k) l = sent_bytes-append k l
sent_bytes-append (wake fd ∷ k) l = sent_bytes-append k l
sent_bytes-append (opens fd ∷ k) l = sent_bytes-append k l

pub received_bytes-append :
    (k l : List SystemCall) → received_bytes (k ++ l) ≡ received_bytes k ++ received_bytes l
received_bytes-append [] l = refl
received_bytes-append (receives fd bytes ∷ k) l =
    ap (λ u. bytes ++ u) (received_bytes-append k l) ∙ sym (append_assoc bytes _ _)
received_bytes-append (sends fd bytes ∷ k) l = received_bytes-append k l
received_bytes-append (watch fd write updated ∷ k) l = received_bytes-append k l
received_bytes-append (register fd added ∷ k) l = received_bytes-append k l
received_bytes-append (unregister fd ∷ k) l = received_bytes-append k l
received_bytes-append (close fd ∷ k) l = received_bytes-append k l
received_bytes-append (wake fd ∷ k) l = received_bytes-append k l
received_bytes-append (opens fd ∷ k) l = received_bytes-append k l

-- Whether the kernel watches a client for writing after the calls; a call that fails changes nothing.
abbrev pub watched : Bool → List SystemCall → Bool
watched write [] = write
watched write (watch fd enable_write true ∷ calls) = watched enable_write calls
watched write (watch fd enable_write false ∷ calls) = watched write calls
watched write (sends fd bytes ∷ calls) = watched write calls
watched write (receives fd bytes ∷ calls) = watched write calls
watched write (register fd added ∷ calls) = watched write calls
watched write (unregister fd ∷ calls) = watched write calls
watched write (close fd ∷ calls) = watched write calls
watched write (wake fd ∷ calls) = watched write calls
watched write (opens fd ∷ calls) = watched write calls

pub watched-append :
    (write : Bool) (k l : List SystemCall) → watched write (k ++ l) ≡ watched (watched write k) l
watched-append write [] l = refl
watched-append write (watch fd enable_write true ∷ k) l = watched-append enable_write k l
watched-append write (watch fd enable_write false ∷ k) l = watched-append write k l
watched-append write (sends fd bytes ∷ k) l = watched-append write k l
watched-append write (receives fd bytes ∷ k) l = watched-append write k l
watched-append write (register fd added ∷ k) l = watched-append write k l
watched-append write (unregister fd ∷ k) l = watched-append write k l
watched-append write (close fd ∷ k) l = watched-append write k l
watched-append write (wake fd ∷ k) l = watched-append write k l
watched-append write (opens fd ∷ k) l = watched-append write k l

-- Whether a descriptor is open after the calls, from whether it was before.
abbrev pub open_after : ℕ → Bool → List SystemCall → Bool
open_after fd was_open [] = was_open
open_after fd was_open (opens n ∷ calls) = open_after fd (if n == fd then true else was_open) calls
open_after fd was_open (close (pos n) ∷ calls) =
    open_after fd (if n == fd then false else was_open) calls
open_after fd was_open (sends fd' bytes ∷ calls) = open_after fd was_open calls
open_after fd was_open (receives fd' bytes ∷ calls) = open_after fd was_open calls
open_after fd was_open (watch fd' write updated ∷ calls) = open_after fd was_open calls
open_after fd was_open (register fd' added ∷ calls) = open_after fd was_open calls
open_after fd was_open (unregister fd' ∷ calls) = open_after fd was_open calls
open_after fd was_open (wake fd' ∷ calls) = open_after fd was_open calls
open_after fd was_open (close (negsuc n) ∷ calls) = open_after fd was_open calls

pub open_after-append :
    (fd : ℕ) (was_open : Bool) (k l : List SystemCall)
    → open_after fd was_open (k ++ l) ≡ open_after fd (open_after fd was_open k) l
open_after-append fd was_open [] l = refl
open_after-append fd was_open (opens n ∷ k) l =
    open_after-append fd (if n == fd then true else was_open) k l
open_after-append fd was_open (close (pos n) ∷ k) l =
    open_after-append fd (if n == fd then false else was_open) k l
open_after-append fd was_open (sends fd' bytes ∷ k) l = open_after-append fd was_open k l
open_after-append fd was_open (receives fd' bytes ∷ k) l = open_after-append fd was_open k l
open_after-append fd was_open (watch fd' write updated ∷ k) l = open_after-append fd was_open k l
open_after-append fd was_open (register fd' added ∷ k) l = open_after-append fd was_open k l
open_after-append fd was_open (unregister fd' ∷ k) l = open_after-append fd was_open k l
open_after-append fd was_open (wake fd' ∷ k) l = open_after-append fd was_open k l
open_after-append fd was_open (close (negsuc n) ∷ k) l = open_after-append fd was_open k l
