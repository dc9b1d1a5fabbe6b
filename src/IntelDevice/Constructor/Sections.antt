-- ===== src/IntelDevice/Constructor/Sections.antt =====
-- What the loop over the sections of an ELF file finds, and what the constructor does with it.
use fpga_runtime.OpenclDevice.Initialize.{Target, initialize}
use fpga_runtime.Exec.{err, runtime_error}
use fpga_runtime.Metadata.Numbering.{number, arg_infos, kernel_args, prefix_sums, read_kernels_lem}
use fpga_runtime.Common.{
  ℕ, zero, suc, ◌≡◌, refl, ap, ◌∙◌, Bool-cases, inl, inr, List, [], ◌∷◌, ◌++◌, Text, if◌then◌else◌,
  Bool, map, true, codes, false, get_elem?, some, nat_eq, ◌||◌,
}
use fpga_runtime.Common.Eq.{text_eq}
use fpga_runtime.Metadata.{XmlKernel, Scan, read_kernels, read_kernel, intel_cat, start}
use fpga_runtime.IntelDevice.Constructor.{
  SectionHeader, ElfReader, Contents, kernel_section, board_section, section_name, section_kernels,
  board_name, read_section, read_sections, Library, has_none, Target, OpenclDevice, construct,
  construct_class, construct_elf32, construct_found, Construction, initialize, is_empty,
}

read_kernels-append :
    (s : Scan) (ks ls : List XmlKernel)
    → read_kernels intel_cat (read_kernels intel_cat s ks) ls ≡ read_kernels intel_cat s (ks ++ ls)
unfolding read_kernels
read_kernels-append s [] ls = refl
read_kernels-append s (k ∷ ks) ls = read_kernels-append (read_kernel intel_cat s k) ks ls

module _ (reader : ElfReader) (binary : Text) where
  -- The kernels of the sections for kernels, one behind the other.
  abbrev pub all_kernels : (i n : ℕ) → List XmlKernel
  all_kernels i zero = []
  all_kernels i (suc n) =
      let header = reader.section binary i in
      (if text_eq (section_name reader binary header) kernel_section
        then section_kernels reader binary header
        else [])
      ++ all_kernels (suc i) n

  -- The name in the last section for a board, or the one before.
  abbrev pub last_board : Text → (i n : ℕ) → Text
  last_board old i zero = old
  last_board old i (suc n) =
      let header = reader.section binary i in
      last_board
        (if text_eq (section_name reader binary header) kernel_section
          then old
          else if text_eq (section_name reader binary header) board_section
          then board_name reader binary header
          else old)
        (suc i) n

  read_section_lem :
      (header : SectionHeader) (f : Contents)
      → ((read_section reader binary header f).scan
          ≡ read_kernels intel_cat f.scan (
              if text_eq (section_name reader binary header) kernel_section
              then section_kernels reader binary header
              else []))
        × ((read_section reader binary header f).target_device_name ≡ (
            if text_eq (section_name reader binary header) kernel_section
            then f.target_device_name
            else if text_eq (section_name reader binary header) board_section
            then board_name reader binary header
            else f.target_device_name))
  unfolding read_section
  read_section_lem header f =
      elim (Bool-cases (text_eq (section_name reader binary header) kernel_section)) [
        | inl k ↦ rw k (refl, refl)
        | inr k ↦
            rw k (elim (Bool-cases (text_eq (section_name reader binary header) board_section)) [
              | inl b ↦ rw b (unfold read_kernels in refl, refl)
              | inr b ↦ rw b (unfold read_kernels in refl, refl)
            ])
      ]

  pub read_sections_lem :
      (i n : ℕ) (f : Contents)
      → ((read_sections reader binary i n f).scan ≡ read_kernels intel_cat f.scan (all_kernels i n))
        × ((read_sections reader binary i n f).target_device_name
            ≡ last_board f.target_device_name i n)
  unfolding read_sections
  read_sections_lem i zero f = (unfold read_kernels in refl, refl)
  read_sections_lem i (suc n) f =
      let header = reader.section binary i in
      let (scan, target) = read_section_lem header f in
      let (scans, targets) = read_sections_lem (suc i) n (read_section reader binary header f) in
      (
        scans
            ∙ ap (λ (s : Scan). read_kernels intel_cat s (all_kernels (suc i) n)) scan
            ∙ read_kernels-append f.scan _ (all_kernels (suc i) n),
        targets ∙ ap (λ (t : Text). last_board t (suc i) n) target,
      )

abbrev pub no_kernel : List XmlKernel → Bool
no_kernel [] = true
no_kernel (k ∷ ks) = false

has_none-map : (ks : List XmlKernel) → has_none (map (λ k. k.name) ks) ≡ no_kernel ks
has_none-map [] = refl
has_none-map (k ∷ ks) = refl

module _ (lib : Library) (reader : ElfReader) (binary : Text) where
  -- The kernels and the board of the whole file.
  abbrev pub file_kernels : List XmlKernel
  file_kernels = all_kernels reader binary 0 (reader.shnum binary)

  abbrev pub file_board : Text
  file_board = last_board reader binary [] 0 (reader.shnum binary)

  -- The arguments of `Initialize` for the file.
  abbrev pub elf_target : Target
  elf_target = record {
    binary = binary;
    vendor_name = codes "Intel(R) FPGA SDK for OpenCL(TM)";
    device_name = file_board;
    kernel_names = map (λ k. k.name) file_kernels;
    kernel_arg_counts = prefix_sums 0 file_kernels;
  }

  -- The object with the arguments of the metadata.
  abbrev pub described_by : OpenclDevice → OpenclDevice
  described_by s = record s {
    arg_table = number 0 (arg_infos intel_cat 0 (kernel_args file_kernels));
  }

  -- On a 32-bit ELF file with section names the constructor takes the arguments of the kernels of all
  -- sections for kernels, in the order of the sections and numbered through; if there is no kernel, or
  -- no section names a board, it throws, and else it calls `Initialize` for the board of the last
  -- section that names one, with these kernels.
  pub construct_elf_lem :
      (c : Construction)
      → get_elem? binary 4 ≡ some 1
      → nat_eq (reader.shstrndx binary) 0 ≡ false
      → let (r, c') = construct lib reader binary c in
        let (opened, device) = initialize lib elf_target (described_by c.device) in
        let lacks = no_kernel file_kernels || is_empty file_board in
        (r ≡ (if lacks then err (runtime_error (codes "unexpected ELF file")) else opened))
        × (c'.device ≡ (if lacks then described_by c.device else device))
  unfolding construct construct_class construct_elf32 construct_found
  construct_elf_lem c is_32 named =
      let f : Contents = record { scan = start; target_device_name = []; env = c.env } in
      let (scan, board) = read_sections_lem reader binary 0 (reader.shnum binary) f in
      let scanned = scan ∙ read_kernels_lem intel_cat file_kernels in
      rw (is_32, named, scanned, board, has_none-map file_kernels)
        (elim (Bool-cases (no_kernel file_kernels || is_empty file_board)) [
          | inl lacks ↦ rw lacks (refl, refl)
          | inr has ↦ rw has (refl, refl)
        ])
