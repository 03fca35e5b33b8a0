-- ===== src/Mutex/Attributes.antt =====
-- What the attributes of a mutex are after calls that set them.
use manrix.Base.{◌≡◌, refl, some, arith}
use manrix.Base.Int.{ℤ, pos}
use manrix.Mutex.{
  mutex_normal, mutex_errorcheck, mutex_recursive, mutex_default, MutexAttr, enotsup,
  mutexattr_gettype, mutexattr_settype,
}

-- `pthread_mutexattr_settype` never sets the type: whatever it is given, `pthread_mutexattr_gettype`
-- answers as before, and each of the four kinds is refused, with the attributes left as they are.
pub mutexattr_settype-gettype :
    (attr : MutexAttr) (x : ℤ)
    → (mutexattr_gettype (mutexattr_settype (some attr) x).1 ≡ mutexattr_gettype (some attr))
      × ((mutexattr_settype (some attr) (pos mutex_normal) ≡ (enotsup, some attr))
          × (mutexattr_settype (some attr) (pos mutex_errorcheck) ≡ (enotsup, some attr))
          × (mutexattr_settype (some attr) (pos mutex_recursive) ≡ (enotsup, some attr))
          × (mutexattr_settype (some attr) (pos mutex_default) ≡ (enotsup, some attr)))
unfolding mutexattr_settype mutexattr_gettype
mutexattr_settype-gettype attr x = (ground arith, (refl, refl, refl, refl))
