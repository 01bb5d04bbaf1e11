-- ===== src/Driver/DeviceFile.antt =====
-- init_module of driver/linber_main.c and the functions of the device file. The kernel's registry of
-- devices answers each call that registers; an answer is an error code or what is registered.
use linber.Prelude.{ℕ, ◌+◌, ◌-◌, ◌≡◌, refl, Bool, true, false, Option, none, some, []}
use linber.Prelude.Int.{ℤ, pos, negsuc}
use linber.Tree.{leaf}
use linber.Types.{LinberStruct}

-- What is registered for the module, how many hold it open, and its data.
pub record Loaded : Type 0 where
  pub dev_major : Option ℕ
  pub dev_class : Bool
  pub dev_device : Bool
  pub users : ℕ
  pub linber : LinberStruct

-- register_chrdev, class_create and device_create: the errno where they fail.
pub record Registry : Type 0 where
  pub register_chrdev : ℤ
  pub class_create : Option ℕ
  pub device_create : Option ℕ

abbrev unregister_chrdev : Loaded → Loaded
unregister_chrdev d = record d { dev_major = none }

abbrev class_destroy : Loaded → Loaded
class_destroy d = record d { dev_class = false }

abbrev pub errno : ℕ → ℤ
errno e = negsuc (e - 1)

-- Services_count stays what it is.
abbrev pub empty_linber : LinberStruct → LinberStruct
empty_linber l = record l {
  services_rbtree = leaf;
  services = [];
  request_count = 0;
  max_working = 0;
  mutex = false;
}

unfoldable pub create_device : Option ℕ → Loaded → ℤ × Loaded
create_device (some e) d = (errno e, unregister_chrdev (class_destroy d))
create_device none d = (pos 0, record d { dev_device = true; linber = empty_linber d.linber })

unfoldable pub create_class : (class device : Option ℕ) → Loaded → ℤ × Loaded
create_class (some e) device d = (errno e, unregister_chrdev d)
create_class none device d = create_device device (record d { dev_class = true })

unfoldable pub register_device : (major : ℤ) → (class device : Option ℕ) → Loaded → ℤ × Loaded
register_device (negsuc e) class device d = (negsuc e, d)
register_device (pos major) class device d =
    create_class class device (record d { dev_major = some major })

unfoldable pub init_module : Registry → Loaded → ℤ × Loaded
init_module a d = register_device a.register_chrdev a.class_create a.device_create d

-- try_module_get and module_put; the result of the former is ignored.
unfoldable pub dev_open : Loaded → ℤ × Loaded
dev_open d = (pos 0, record d { users = d.users + 1 })

unfoldable pub dev_release : Loaded → ℤ × Loaded
dev_release d = (pos 0, record d { users = d.users - 1 })

abbrev pub dev_read : Loaded → ℤ × Loaded
dev_read d = (pos 0, d)

abbrev pub dev_write : Loaded → ℤ × Loaded
dev_write d = (pos 0, d)

-- Nothing is registered.
abbrev pub NoneRegistered : Loaded → Type 0
NoneRegistered d = (d.dev_major ≡ none) × (d.dev_class ≡ false) × (d.dev_device ≡ false)

-- All is registered and there is no service.
abbrev pub Ready : Loaded → Loaded → Type 0
Ready d d' =
    ((major : ℕ) × (d'.dev_major ≡ some major))
    × (d'.dev_class ≡ true)
    × (d'.dev_device ≡ true)
    × (d'.linber ≡ empty_linber d.linber)

pub data Outcome (d : Loaded) (r : ℤ × Loaded) : Type 0 where
  ready : r.0 ≡ pos 0 → Ready d r.1 → Outcome d r
  refused : (e : ℕ) → r.0 ≡ negsuc e → NoneRegistered r.1 → r.1.linber ≡ d.linber → Outcome d r

device-Outcome :
    (device : Option ℕ) (major : ℕ) (d : Loaded)
    → NoneRegistered d
    → Outcome d (create_device device (record d { dev_major = some major; dev_class = true }))
unfolding create_device
device-Outcome none major d h = ready refl ((major, refl), refl, refl, refl)
device-Outcome (some n) major d h = refused (n - 1) refl (refl, refl, h.2) refl

class-Outcome :
    (class device : Option ℕ) (major : ℕ) (d : Loaded)
    → NoneRegistered d
    → Outcome d (create_class class device (record d { dev_major = some major }))
unfolding create_class
class-Outcome none device major d h = device-Outcome device major d h
class-Outcome (some n) device major d h = refused (n - 1) refl (refl, h.1, h.2) refl

register-Outcome :
    (major : ℤ) (class device : Option ℕ) (d : Loaded)
    → NoneRegistered d
    → Outcome d (register_device major class device d)
unfolding register_device
register-Outcome (negsuc n) class device d h = refused n refl h refl
register-Outcome (pos major) class device d h = class-Outcome class device major d h

pub init_module-Outcome :
    (a : Registry) (d : Loaded) → NoneRegistered d → Outcome d (init_module a d)
unfolding init_module
init_module-Outcome a d h = register-Outcome a.register_chrdev a.class_create a.device_create d h
