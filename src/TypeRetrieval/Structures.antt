-- ===== src/TypeRetrieval/Structures.antt =====
-- src/type_retrieval.cpp: structures and unions. An identifier stands for its `struc_t`.
use idadwarf.Prelude.{
  ℕ, Bool, true, false, not, ◌&&◌, Option, none, some, List, [], ◌∷◌, if◌then◌else◌, ◌==◌, badaddr,
  to_word,
}
use idadwarf.Cache.{ordinal, get_type_offset}
use idadwarf.Dwarf.Checked.{Checked, returns, throws}
use idadwarf.Dwarf.Tags.{
  dw_tag_member, dw_tag_union_type, dw_at_data_member_location, dw_at_declaration, dw_at_type,
}
use idadwarf.Holder.Location.{member_offset_from}
use idadwarf.Ida.{Ida, TypeInfo, no_info, enum_info, struc_info, strucs}
use idadwarf.Members.{fill_typeinfo, member_size}
use idadwarf.Session.{
  Host, Action, Void, pure, lift, gets, update, update_fueled, query, ◌>>=◌, ◌>>◌, on_option,
  fold_children, get_name, get_tag, get_attr, get_offset, get_ref_from_attr, new_die, cache_useless,
  cache_type,
}
use idadwarf.Til.{first_byte}
use idadwarf.TypeUtils.{badnode, struc_equal, struc_cmp_of_name}
use idadwarf.TypeUtils.Adding.{add_dup_struc}
use idadwarf.TypeRetrieval.Lookup.{save_type, visited_type}

-- The identifier with the ordinal, and the database.
unfoldable pub regrouped :
    {Db : Type 0} → Option (Checked (ℕ × (ℕ × Db))) → Option (Checked ((ℕ × ℕ) × Db))
regrouped none = none
regrouped (some (throws e)) = some (throws e)
regrouped (some (returns (id, (ordinal, db)))) = some (returns ((id, ordinal), db))

module _ (I : Ida) where
  -- add_struc_member; where the flags are 0, the type is set afterwards.
  unfoldable pub add_member : I.Db → ℕ → Option (List ℕ) → ℕ → TypeInfo → List ℕ → ℕ → I.Db
  add_member db sptr name moffset no_info type size =
      let db' = I.add_struc_member db sptr name moffset no_info size in
      I.set_member_tinfo db' sptr (I.get_member_by_name db' sptr name) type
  add_member db sptr name moffset (enum_info tid serial) type size =
      I.add_struc_member db sptr name moffset (enum_info tid serial) size
  add_member db sptr name moffset (struc_info tid) type size =
      I.add_struc_member db sptr name moffset (struc_info tid) size

  -- What add_structure_member does with a member whose type is in the cache.
  unfoldable pub set_new_member : I.Db → ℕ → Option (List ℕ) → ℕ → ℕ → I.Db
  unfolding fill_typeinfo member_size add_member
  set_new_member db sptr name moffset ordinal =
      let (info, found) = fill_typeinfo I db ordinal in
      elim found [
        | none ↦ db
        | some type ↦
            let size = member_size I db info type in
            if size == I.badsize then db else add_member db sptr name moffset info type size
      ]

  -- The name NULL is that of no structure.
  unfoldable pub struc_id_of : I.Db → Option (List ℕ) → ℕ
  struc_id_of db none = badnode
  struc_id_of db (some name) = I.get_struc_id db name

  -- The ordinal of the declaration: a type of that name which is void.
  unfoldable pub decl_ordinal : I.Db → Option (List ℕ) → ℕ
  decl_ordinal db none = 0
  decl_ordinal db (some name) = elim (I.get_named_type db name) [
    | none ↦ 0
    | some (ordinal, type) ↦ if I.bytes.is_type_void (first_byte type) then ordinal else 0
  ]

module _ {H : Host} where
  -- The offset is read even where the member turns out to have no type yet. To follow a NULL struc_t
  -- is not defined, and here an exception.
  unfoldable pub member_offset : ℕ → H.dwarf.Die → Action H ℕ
  member_offset sptr member = do
    followed ← gets {H = H} (λ w. H.ida.struc_ordinal w.db sptr)
    on_option followed (lift (throws none)) pure
    is_union ← gets {H = H} (λ w. H.ida.is_union w.db sptr)
    if is_union then pure 0 else (do
      attrib ← get_attr dw_at_data_member_location (member ∷ [])
      offset ← lift (member_offset_from H.dwarf attrib)
      pure (to_word offset))

  -- The result is *second_pass after the call.
  unfoldable pub add_structure_member :
      (H.dwarf.Die → Action H Void) → ℕ → Bool → H.dwarf.Die → Action H Bool
  unfolding member_offset
  add_structure_member visit sptr second_pass member = do
    member_name ← get_name (member ∷ [])
    offset ← get_ref_from_attr dw_at_type (member ∷ [])
    die ← new_die offset
    moffset ← member_offset sptr member
    cache ← visited_type visit die
    second ← on_option cache (pure true) (λ c. do
      update {H = H} (λ db. (tt, set_new_member H.ida db sptr member_name moffset (ordinal c)))
      pure second_pass)
    cache_useless {H = H} (member ∷ [])
    pure second

  -- add_dup_struc, with the identifier and the ordinal.
  unfoldable pub new_struc : ℕ → Option (List ℕ) → H.dwarf.Die → Action H (ℕ × ℕ)
  unfolding regrouped
  new_struc fuel name structure =
      update_fueled {H = H}
        (λ db. regrouped (add_dup_struc H.dwarf (strucs H.ida) fuel fuel db structure name 0))

  -- A structure of the same name, from another DIE: an equal one, or a new one.
  unfoldable pub other_offset_structure : ℕ → Option (List ℕ) → ℕ → H.dwarf.Die → Action H (ℕ × ℕ)
  unfolding new_struc
  other_offset_structure fuel name other_ordinal structure = do
    db ← gets {H = H} (λ w. w.db)
    equal ←
        query {H = H} (λ _.
          struc_equal H.dwarf fuel (struc_cmp_of_name H.dwarf (strucs H.ida) db name) structure)
    if equal then pure (badnode, other_ordinal) else new_struc fuel name structure

  unfoldable pub same_name_structure : ℕ → Option (List ℕ) → ℕ → H.dwarf.Die → Action H (ℕ × ℕ)
  unfolding other_offset_structure
  same_name_structure fuel name other_ordinal structure =
      if not (other_ordinal == 0) && not (other_ordinal == badaddr)
      then (do
        offset ← get_offset (structure ∷ [])
        other_offset ← gets {H = H} (λ w. get_type_offset H.netnode w.node other_ordinal)
        on_option other_offset (pure (badnode, 0)) (λ o.
            if offset == o
            then pure (badnode, 0)
            else other_offset_structure fuel name other_ordinal structure))
      else pure (badnode, 0)

  -- The identifier, BADNODE where there is no new structure, and the ordinal, 0 where there is none.
  unfoldable pub get_other_structure : ℕ → Option (List ℕ) → H.dwarf.Die → Action H (ℕ × ℕ)
  unfolding same_name_structure new_struc
  get_other_structure fuel name structure = do
    other_id ← gets {H = H} (λ w. struc_id_of H.ida w.db name)
    sptr ← gets {H = H} (λ w. H.ida.struc_ordinal w.db other_id)
    on_option sptr
        (if other_id == badnode then pure (badnode, 0) else new_struc fuel name structure)
        (λ other_ordinal. same_name_structure fuel name other_ordinal structure)

  -- The members of a new structure, and *second_pass.
  unfoldable pub add_members : (H.dwarf.Die → Action H Void) → ℕ → ℕ → H.dwarf.Die → Action H Bool
  add_members visit fuel sptr structure =
      fold_children fuel dw_tag_member structure (add_structure_member visit sptr) false

  -- The ordinal of the structure with its members; to follow a NULL struc_t is not defined, and
  -- here an exception.
  unfoldable pub final_ordinal : ℕ → ℕ → Action H ℕ
  final_ordinal struc_id declared = do
    sptr ← gets {H = H} (λ w. H.ida.struc_ordinal w.db struc_id)
    ordinal ← on_option sptr (lift (throws none)) pure
    if ordinal == badaddr then pure 0 else (do
      if declared == 0
          then pure tt
          else update {H = H} (λ db. (tt, H.ida.set_type_alias db declared ordinal))
      pure ordinal)

  -- The ordinal and *second_pass.
  unfoldable pub process_complete_structure :
      (H.dwarf.Die → Action H Void) → ℕ → Option (List ℕ) → H.dwarf.Die → Action H (ℕ × Bool)
  unfolding get_other_structure add_members final_ordinal
  process_complete_structure visit fuel name structure = do
    tag ← get_tag structure
    declared ← gets {H = H} (λ w. decl_ordinal H.ida w.db name)
    struc_id ← update {H = H} (λ db. H.ida.add_struc db name (tag == dw_tag_union_type))
    other ←
        (if struc_id == badnode
          then get_other_structure fuel name structure
          else pure (struc_id, 0))
    let (id, ordinal) = other
    if ordinal == 0 && not (id == badnode)
        then (do
          second_pass ← add_members visit fuel id structure
          final ← final_ordinal id declared
          pure (final, second_pass))
        else pure (ordinal, false)

  -- An incomplete type is void for now.
  unfoldable pub process_structure : (H.dwarf.Die → Action H Void) → ℕ → H.dwarf.Die → Action H Void
  process_structure visit fuel structure = do
    name ← get_name (structure ∷ [])
    declaration ← get_attr dw_at_declaration (structure ∷ [])
    tag ← get_tag structure
    result ← on_option declaration (process_complete_structure visit fuel name structure) (λ _. do
      ordinal ← save_type fuel name (H.ida.coding.btf_void ∷ []) 0
      pure (ordinal, false))
    let (ordinal, second_pass) = result
    if ordinal == 0 then pure tt else cache_type {H = H} ordinal second_pass 0 (structure ∷ [])
