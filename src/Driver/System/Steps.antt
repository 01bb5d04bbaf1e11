-- ===== src/Driver/System/Steps.antt =====
-- The steps that the handlers of driver/linber_main.c are made of keep the memory sound.
use linber.Prelude.{
  ℕ, zero, suc, ◌≡◌, refl, Bool, true, false, Option, none, some, List, if◌then◌else◌, arith,
}
use linber.Types.{RequestNode, ServiceNode}
use linber.Driver.Kernel.{
  Kernel, ok, oops, hang, M, and_then, Wait, count, down_at, ◌>>=◌, ◌>>◌, kmalloc, check_copy,
  load_request, store_request, free_request, load_service, store_service, load_buffer, store_buffer,
  free_buffer, lock_service, unlock_service, lock_linber, unlock_linber, up_request, up_service,
  down_interruptible, put_user, get_user, copy_to_user, copy_from_user, get_linber, put_linber,
  update,
}
use linber.Driver.System.{Whole, Sound}
use linber.Driver.System.Stores.{Sound-store, lower-Sound}
use linber.Driver.System.Keeps.{Keeps, Kept, Kept-bind, Kept-if, Kept-ok, Kept-exit, Kept-fault}

pub Kept-elim_option :
    {A B : Type 0} {n : M B} {f : A → M B} (o : Option A)
    → Kept n
    → ((a : A) → Kept (f a))
    → Kept (elim o [ none ↦ n | some a ↦ f a ])
Kept-elim_option none h g = h
Kept-elim_option (some a) h g = g a

Sound-grow : (k : Kernel) → Sound k → Sound (record k { next = suc k.next })
Sound-grow k h = record {
  whole = h.whole;
  below = λ p s e. ground (arith, h.below p s e);
  listed = λ p e. ground (arith, h.listed p e);
  sorted = h.sorted;
  mapped = h.mapped;
}

pub kmalloc-Kept : (given : Bool) → Kept (kmalloc given)
kmalloc-Kept true = record { from = λ k h. Sound-grow k h }
kmalloc-Kept false = record { from = λ k h. h }

pub check_copy-Kept : (fine : Bool) → Kept (check_copy fine)
check_copy-Kept true = Kept-ok
check_copy-Kept false = Kept-exit _

pub load_request-Kept : (p : ℕ) → Kept (load_request p)
load_request-Kept p = record {
  from = λ k h. elim (k.requests p) as (λ o. Keeps (elim o [ none ↦ oops | some r ↦ ok r k ])) [
    | none ↦ tt
    | some r ↦ h
  ];
}

pub load_service-Kept : (p : ℕ) → Kept (load_service p)
load_service-Kept p = record {
  from = λ k h. elim (k.services p) as (λ o. Keeps (elim o [ none ↦ oops | some r ↦ ok r k ])) [
    | none ↦ tt
    | some r ↦ h
  ];
}

pub load_buffer-Kept : (p : ℕ) → Kept (load_buffer p)
load_buffer-Kept p = record {
  from = λ k h. elim (k.buffers p) as (λ o. Keeps (elim o [ none ↦ oops | some r ↦ ok r k ])) [
    | none ↦ tt
    | some r ↦ h
  ];
}

pub store_request-Kept : (p : ℕ) (r : RequestNode) → Kept (store_request p r)
store_request-Kept p r = record { from = λ k h. h }

pub free_request-Kept : (p : ℕ) → Kept (free_request p)
free_request-Kept p = record {
  from = λ k h.
      elim (k.requests p)
        as (λ o. Keeps (elim o [
          | none ↦ oops
          | some _ ↦ ok tt (record k { requests = update k.requests p none })
        ])) [ none ↦ tt | some _ ↦ h ];
}

pub store_buffer-Kept : (p : ℕ) (b : List ℕ) → Kept (store_buffer p b)
store_buffer-Kept p b = record { from = λ k h. h }

pub free_buffer-Kept : (p : ℕ) → Kept (free_buffer p)
free_buffer-Kept p = record {
  from = λ k h.
      elim (k.buffers p)
        as (λ o. Keeps (elim o [
          | none ↦ oops
          | some _ ↦ ok tt (record k { buffers = update k.buffers p none })
        ])) [ none ↦ tt | some _ ↦ h ];
}

pub get_linber-Kept : Kept get_linber
get_linber-Kept = record { from = λ k h. h }

pub put_user-Kept : (fine : Bool) (p v : ℕ) → Kept (put_user fine p v)
put_user-Kept true p v = record { from = λ k h. h }
put_user-Kept false p v = record { from = λ k h. h }

pub get_user-Kept : (fine : Bool) (p : ℕ) → Kept (get_user fine p)
get_user-Kept true p = record { from = λ k h. h }
get_user-Kept false p = record { from = λ k h. h }

pub copy_to_user-Kept : (fine : Bool) (p : ℕ) (bs : List ℕ) → Kept (copy_to_user fine p bs)
copy_to_user-Kept true p bs = record { from = λ k h. h }
copy_to_user-Kept false p bs = record { from = λ k h. h }

pub copy_from_user-Kept : (fine : Bool) (p len : ℕ) → Kept (copy_from_user fine p len)
copy_from_user-Kept true p len = record { from = λ k h. h }
copy_from_user-Kept false p len = record { from = λ k h. h }

pub lock_linber-Kept : Kept lock_linber
unfolding lock_linber
lock_linber-Kept = record {
  from = λ k h.
      elim (k.linber.mutex)
        as (λ b. Keeps (if b then hang else put_linber (record (k.linber) { mutex = true }) k)) [
          | true ↦ tt
          | false ↦ h
        ];
}

pub unlock_linber-Kept : Kept unlock_linber
unfolding unlock_linber
unlock_linber-Kept = record { from = λ k h. h }

-- What a handler may change of a service.
pub record Edits (f : ServiceNode → ServiceNode) : Type 0 where
  pub whole : (s : ServiceNode) → Whole s → Whole (f s)
  pub same_uri : (s : ServiceNode) → (f s).uri ≡ s.uri

-- A service that is read, with where it stood.
pub Kept-load :
    {A : Type 0} {f : ServiceNode → M A} (p : ℕ)
    → ((s : ServiceNode) (k : Kernel) → Sound k → k.services p ≡ some s → Keeps (f s k))
    → Kept (load_service p >>= f)
Kept-load {f} p g = record { from = λ k h. go k h (k.services p) refl }
  where
    go :
        (k : Kernel)
        → Sound k
        → (o : Option ServiceNode) → k.services p ≡ o
        → Keeps (and_then (elim o [ none ↦ oops | some s ↦ ok s k ]) f)
    go k h none e = tt
    go k h (some s) e = g s k h e

pub edit-Kept :
    {A : Type 0} {rest : ServiceNode → M A} (p : ℕ) (f : ServiceNode → ServiceNode)
    → Edits f
    → ((s : ServiceNode) → Kept (rest s))
    → Kept (load_service p >>= λ s. store_service p (f s) >> rest s)
edit-Kept p f ed h = Kept-load p λ s k sound e.
    (h s).from (record k { services = update k.services p (some (f s)) })
      (Sound-store k p s (f s) sound e (ed.whole s (sound.whole p s e)) (ed.same_uri s))

pub edit_last-Kept :
    (p : ℕ) (f : ServiceNode → ServiceNode)
    → Edits f
    → Kept (load_service p >>= λ s. store_service p (f s))
edit_last-Kept p f ed =
    Kept-load p λ s k sound e.
      Sound-store k p s (f s) sound e (ed.whole s (sound.whole p s e)) (ed.same_uri s)

pub lock_service-Kept : (p : ℕ) → Kept (lock_service p)
unfolding lock_service
lock_service-Kept p = Kept-load p λ s k sound e.
    elim (s.service_mutex)
      as (λ b.
        Keeps
          ((if b then (λ k. hang) else store_service p (record s { service_mutex = true })) k)) [
            | true ↦ tt
            | false ↦
                Sound-store k p s (record s { service_mutex = true }) sound e (sound.whole p s e)
                  refl
          ]

pub unlock_service-Kept : (p : ℕ) → Kept (unlock_service p)
unfolding unlock_service
unlock_service-Kept p =
    edit_last-Kept p (λ s. record s { service_mutex = false })
      (record { whole = λ s w. w; same_uri = λ s. refl })

pub up_service-Kept : (p : ℕ) → Kept (up_service p)
unfolding up_service
up_service-Kept p = edit_last-Kept p _ (record { whole = λ s w. w; same_uri = λ s. refl })

pub up_request-Kept : (p : ℕ) → Kept (up_request p)
unfolding up_request
up_request-Kept p = search (Kept-bind, load_request-Kept, store_request-Kept)

down_at-Keeps : (w : Wait) (o : Option ℕ) (k : Kernel) → Sound k → Keeps (down_at w o k)
down_at-Keeps w none k h = tt
down_at-Keeps w (some zero) k h = (h, λ k' h'. h')
down_at-Keeps w (some (suc n)) k h = lower-Sound w k h

pub down-Kept : (w : Wait) → Kept (down_interruptible w)
unfolding down_interruptible
down-Kept w = record { from = λ k h. down_at-Keeps w (count w k) k h }

-- The steps, for search.
pub ruleset steps = (
  Kept-bind, Kept-if, Kept-ok, Kept-exit, Kept-fault, Kept-elim_option, kmalloc-Kept,
  check_copy-Kept, load_request-Kept, store_request-Kept, free_request-Kept, load_service-Kept,
  load_buffer-Kept, store_buffer-Kept, free_buffer-Kept, get_linber-Kept, down-Kept, put_user-Kept,
  get_user-Kept, copy_to_user-Kept, copy_from_user-Kept, lock_linber-Kept, unlock_linber-Kept,
  lock_service-Kept, unlock_service-Kept, up_service-Kept, up_request-Kept,
)
