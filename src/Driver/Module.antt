-- ===== src/Driver/Module.antt =====
-- init_module and cleanup_module of driver/linber_main.c, the parts that concern the services. The
-- device file is in DeviceFile; its unregistration is not modelled.
use linber.Prelude.{ℕ, zero, suc, false, none, some, List, [], ◌∷◌, length}
use linber.Tree.{leaf, inorder}
use linber.Types.{LinberStruct}
use linber.Services.{remove_first_service}
use linber.Driver.Kernel
use linber.Driver.Kernel.{M, Env, ◌>>=◌, ◌>>◌, pure, skip, get_linber, put_linber}
use linber.Driver.Lifecycle.{destroy_service, unlink_service}

-- Services_count is the zero of a static variable.
abbrev pub init_linber : LinberStruct
init_linber = record {
  services_rbtree = leaf;
  services = [];
  services_count = 0;
  request_count = 0;
  max_working = 0;
  mutex = false;
}

-- `while(Remove_first_Service(...) != NULL);`, on fuel.
unfoldable pub empty_tree : ℕ → Env → M (Unit {0})
empty_tree zero env = λ k. Kernel.hang
empty_tree (suc fuel) env = do
  l ← get_linber
  let (service, rest) = remove_first_service env.service_tree l.services_rbtree
  put_linber (record l { services_rbtree = rest })
  elim service [ none ↦ skip | some _ ↦ empty_tree fuel env ]

unfoldable pub destroy_all : List ℕ → Env → M (Unit {0})
destroy_all [] env = skip
destroy_all (ser_node ∷ rest) env = do
  unlink_service ser_node
  destroy_service env ser_node
  destroy_all rest env

unfoldable pub cleanup_module : Env → M (Unit {0})
cleanup_module env = do
  l ← get_linber
  empty_tree (suc (length (inorder l.services_rbtree))) env
  destroy_all l.services env
