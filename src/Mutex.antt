-- ===== src/Mutex.antt =====
-- Mutexes of the C library (soft/libc/pthreads/pthread-mutex.c, include/mrx/mutex.h,
-- include/arch/i386/asm/mutex.h). A pointer that may be NULL is an Option, and an `int` a number of
-- its range. What a system call returns is an argument of its caller.
pub mod Attributes
mod Tests
use manrix.Base.{
  ℕ, ◌+◌, ◌-◌, ◌^◌, Bool, true, false, not, ◌||◌, Option, none, some, ◌==◌, if◌then◌else◌,
}
use manrix.Base.Int.{ℤ, pos, negsuc, ltb_ℤ}
use manrix.Kernel.{test_mask}

abbrev pub mutex_normal : ℕ
mutex_normal = 1

abbrev pub mutex_errorcheck : ℕ
mutex_errorcheck = 2

abbrev pub mutex_recursive : ℕ
mutex_recursive = 4

abbrev pub mutex_default : ℕ
mutex_default = 8

-- `struct mrx_mutexattr`
pub record MutexAttr : Type 0 where
  pub mutex_type : ℤ
  pub pshared : ℤ
  pub protocol : ℤ

-- `struct mrx_mutex`
pub record Mutex : Type 0 where
  pub mattr : MutexAttr
  pub counter : ℤ
  pub sync_id : ℤ

-- What a function of pthread-mutex.c returns.
pub data Code : Type 0 where
  zero_code : Code
  einval : Code
  enosys : Code
  enotsup : Code
  errno_code : ℕ → Code

-- The bits of an `int`.
unfoldable pub bits_of : ℤ → ℕ
bits_of (pos n) = n
bits_of (negsuc n) = 2 ^ 32 - (n + 1)

abbrev pub outside : ℕ → ℤ → Bool
outside top x = ltb_ℤ x (pos 1) || ltb_ℤ (pos top) x

unfoldable pub mutexattr_init : Option MutexAttr → Code × Option MutexAttr
mutexattr_init none = (einval, none)
mutexattr_init (some attr) =
    (zero_code, some (record { mutex_type = pos mutex_normal; pshared = pos 1; protocol = pos 2 }))

unfoldable pub mutexattr_destroy : Option MutexAttr → Code
mutexattr_destroy none = einval
mutexattr_destroy (some attr) = zero_code

-- The getters: the code, and what is stored behind the second pointer.
unfoldable pub mutexattr_getprotocol : Option MutexAttr → Code × Option ℤ
mutexattr_getprotocol none = (einval, none)
mutexattr_getprotocol (some attr) = (zero_code, some attr.protocol)

unfoldable pub mutexattr_setprotocol : Option MutexAttr → ℤ → Code × Option MutexAttr
mutexattr_setprotocol none x = (einval, none)
mutexattr_setprotocol (some attr) x =
    if outside 3 x then (enotsup, some attr) else (zero_code, some (record attr { protocol = x }))

unfoldable pub mutexattr_getpshared : Option MutexAttr → Code × Option ℤ
mutexattr_getpshared none = (einval, none)
mutexattr_getpshared (some attr) = (zero_code, some attr.pshared)

unfoldable pub mutexattr_setpshared : Option MutexAttr → ℤ → Code × Option MutexAttr
mutexattr_setpshared none x = (einval, none)
mutexattr_setpshared (some attr) x =
    if outside 2 x then (enotsup, some attr) else (zero_code, some (record attr { pshared = x }))

unfoldable pub mutexattr_gettype : Option MutexAttr → Code × Option ℤ
mutexattr_gettype none = (einval, none)
mutexattr_gettype (some attr) = (zero_code, some attr.mutex_type)

-- The test of `pthread_mutexattr_settype`: one of the four kinds' bits is clear.
unfoldable pub lacks_kind : ℕ → Bool
lacks_kind w =
    not (test_mask w mutex_default)
    || (not (test_mask w mutex_errorcheck)
        || (not (test_mask w mutex_normal) || not (test_mask w mutex_recursive)))

unfoldable pub mutexattr_settype : Option MutexAttr → ℤ → Code × Option MutexAttr
unfolding lacks_kind bits_of
mutexattr_settype none x = (einval, none)
mutexattr_settype (some attr) x =
    if lacks_kind (bits_of x)
    then (enotsup, some attr)
    else (zero_code, some (record attr { pshared = x }))

-- `pthread_mutex_init`, whether an attributes object is given; its values are not looked at.
unfoldable pub mutex_init : Option Mutex → Option MutexAttr → ℤ → Code × Option Mutex
unfolding mutexattr_init
mutex_init none attr ret = (einval, none)
mutex_init (some m) attr ret =
    let m₁ : Mutex = elim attr [
      | none ↦ elim (mutexattr_init (some m.mattr)).1 [ none ↦ m | some a ↦ record m { mattr = a } ]
      | some a ↦ m
    ] in
    elim ret [
      | pos id ↦ (zero_code, some (record m₁ { sync_id = pos id }))
      | negsuc n ↦ (errno_code (n + 1), some m₁)
    ]

unfoldable pub mutex_destroy : Option Mutex → ℤ → Code
mutex_destroy none ret = einval
mutex_destroy (some m) (pos n) = zero_code
mutex_destroy (some m) (negsuc n) = errno_code (n + 1)

-- The bodies of `mrx_mutex_lock`, `mrx_mutex_trylock` and `mrx_mutex_unlock` are comments.
unfoldable pub mutex_lock : Option Mutex → Code × Option Mutex
mutex_lock none = (einval, none)
mutex_lock (some m) = (zero_code, some m)

unfoldable pub mutex_trylock : Option Mutex → Code × Option Mutex
mutex_trylock none = (einval, none)
mutex_trylock (some m) = (zero_code, some m)

unfoldable pub mutex_unlock : Option Mutex → Code × Option Mutex
mutex_unlock none = (einval, none)
mutex_unlock (some m) = (zero_code, some m)

-- The calls that are not implemented, whatever they are given.
abbrev pub mutexattr_getprioceiling : Option MutexAttr → Code
mutexattr_getprioceiling attr = enosys

abbrev pub mutexattr_setprioceiling : Option MutexAttr → ℤ → Code
mutexattr_setprioceiling attr x = enosys

abbrev pub mutex_timedlock : Option Mutex → Code
mutex_timedlock m = enosys
