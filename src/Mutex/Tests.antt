-- ===== src/Mutex/Tests.antt =====
-- Runs on the attributes of a process-shared mutex, and a mutex that two threads lock.
use manrix.Base.{◌≡◌, refl, some}
use manrix.Base.Int.{pos, negsuc}
use manrix.Mutex.{
  MutexAttr, Mutex, zero_code, enotsup, errno_code, mutexattr_setprotocol, mutexattr_settype,
  mutex_init, mutex_lock,
}

abbrev shared : MutexAttr
shared = record { mutex_type = pos 1; pshared = pos 1; protocol = pos 2 }

abbrev mutex : Mutex
mutex = record { mattr = shared; counter = pos 0; sync_id = pos 7 }

settype_overwrites_pshared :
    mutexattr_settype (some shared) (pos 15)
    ≡ (zero_code, some (record shared { pshared = pos 15 }))
unfolding mutexattr_settype
settype_overwrites_pshared = refl

setprotocol_negative : mutexattr_setprotocol (some shared) (negsuc 0) ≡ (enotsup, some shared)
unfolding mutexattr_setprotocol
setprotocol_negative = refl

init_fails : mutex_init (some mutex) (some shared) (negsuc 11) ≡ (errno_code 12, some mutex)
unfolding mutex_init
init_fails = refl

both_lock : mutex_lock (mutex_lock (some mutex)).1 ≡ (zero_code, some mutex)
unfolding mutex_lock
both_lock = refl
