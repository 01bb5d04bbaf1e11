-- ===== src/Services/Tests.antt =====
-- The theorems of the tree of services at a concrete tree.
use linber.Prelude.{◌≡◌, refl, true, some, [], ◌∷◌}
use linber.Strings.{strcmp}
use linber.Tree.{Tree, leaf, node, inorder}
use linber.Tree.Plain.{plain}
use linber.Types.{ServiceEntry}
use linber.Services.{insert_service_node, remove_service, remove_first_service}
use linber.Services.Directory.{IsSorted}
use linber.Services.Insert.{Registered, insert-Registered}
use linber.Services.Remove.{Unregistered, remove-Unregistered, remove_first-sequence}

-- "a" at 1 and "b" at 2.
abbrev two_services : Tree ServiceEntry
two_services =
    node leaf (record { service_uri = 97 ∷ []; service = 1 })
      (node leaf (record { service_uri = 98 ∷ []; service = 2 }) leaf)

two_services-IsSorted : IsSorted (inorder two_services)
unfolding strcmp
two_services-IsSorted = ((refl, tt), (tt, tt))

insert-Registered_example :
    Registered true two_services 3
      (97 ∷ 99 ∷ [])
      (insert_service_node plain true two_services 3 (97 ∷ 99 ∷ []))
insert-Registered_example =
    insert-Registered plain two_services two_services-IsSorted true 3 (97 ∷ 99 ∷ [])

remove-Unregistered_example :
    Unregistered two_services (98 ∷ []) (remove_service plain two_services (98 ∷ []))
remove-Unregistered_example = remove-Unregistered plain two_services two_services-IsSorted (98 ∷ [])

remove_first-sequence_example :
    ((remove_first_service plain two_services).0 ≡ some 1)
    × (inorder (remove_first_service plain two_services).1
        ≡ record { service_uri = 98 ∷ []; service = 2 } ∷ [])
remove_first-sequence_example = remove_first-sequence plain two_services (inorder two_services) refl
