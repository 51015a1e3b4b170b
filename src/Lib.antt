-- ===== src/Lib.antt =====
-- The verification library of SillOS, a small x86_64 kernel in Rust. It models the parts of the
-- kernel that keep state and compute: the heap and frame allocators, the set-up of the kernel's
-- memory, the ACPI tables, the framebuffer, the font, the text console and the file system in
-- memory. Paths are from the repository's root, with src/ for the kernel crate.
--
-- Base holds names, Boolean tests, the conditional, list functions and laws of bit operations that
-- the parts share.
--
-- Buddy models src/kmem/heap/buddy.rs. The state is the record BuddyAllocator with the heap memory
-- in which the free lists are threaded, as a function from addresses; a null pointer is 0. The
-- functions new, init, alloc, dealloc and their parts have the names of the code; a loop is a
-- function of its own (largest_order_loop, order_loop, remove_loop, merge_loop, pick_loop,
-- decompose, and allocate_loop for the recursion of allocate_order). Buddy/Lists states what the
-- lists promise, with each free list as a list of addresses: take_block, give_block, and the
-- relation Holds to the memory. Buddy/Steps, Remove, Take, Join and Give relate the code to it,
-- Weigh and Count count the bytes that free blocks cover, Align is about alignment, Pick and Init
-- about init, Sizes about orders, Heap about alloc and dealloc on a whole heap, Valid about heaps
-- that stay valid. buddy_of and what calls it give none where the address of a buddy overflows,
-- which is a panic. The fuel of the loops is what the code's own bound gives: 24 orders, or
-- max_order less the order; the walk of remove_free_block has one more than the smallest blocks of
-- the heap, and no list of a valid heap is that long (Buddy/Join); decompose has one round for
-- each smallest block.
--
-- Frame models src/kmem/frame.rs: the memory map is a list of Entry, a call ends in Run, which is
-- a value with the new state, a panic, or fuel used up; the fuel of allocate_frame is one more
-- than the regions, since every round but the last leaves one behind. MEMMAP_USABLE of the limine
-- crate and PhysFrame::containing_address of the x86_64 crate are parameters. Sums that overflow
-- 64 bits are panics. Frame/Regions describes the frames of a map, Frame/Search and Enumerate the
-- calls, Frame/Usable the total.
--
-- Fb models src/fb.rs: the back buffer by pixel index, the front buffer by byte, and the dirty
-- rectangle. fill and copy are the slice and pointer functions of the language's library.
-- Fb/Pixels and Copies are about rows, Dirty and Shown about the dirty rectangle and what it
-- promises, Drawn, Draw, CopyRect and Scroll about the operations, Present and Session about
-- present and whole uses. Colour shifts are below 32.
--
-- Font models src/font.rs: new, draw_char and draw_text, with the font file as a parameter.
-- Font/Glyph is about the loops, Font/Character about whole characters, Font/Written about texts.
--
-- Console models the methods of Console in src/console.rs, with the framebuffer as a field.
-- Console/Grid has the state and the cells, Console/Synced says that the screen shows the cells,
-- Console/Cells and Scroll are about scrolling, Newline about line ends, Render and Place about
-- one cell, Writing and Typing about characters and texts, Input and Line about the keyboard,
-- Start about init and clear. A panic of draw_char is none.
--
-- TempFs models src/fs/tempfs.rs and the types of src/fs.rs: a path is the list of its bytes, the
-- ordered map and set of the language's library are lists in the order of their keys.
-- TempFs/Tables is about lookups, Files about read after a change, Listing about list_entries,
-- Tree and Session about the directory tree.
--
-- ListAllocator models the linked-list allocator of src/kmem/heap.rs. The nodes own one another,
-- so the list is a list of regions, each with the address of its node; a panic of an assertion or
-- of the sum in align_up is panic. ListAllocator/Fits says in which regions a layout fits, Bytes
-- which bytes regions cover, Served and Alloc are about alloc, Restore about dealloc after alloc,
-- Session about whole uses, Misaligned about the node of an excess.
--
-- Acpi models src/acpi.rs: the memory is a function from addresses to bytes, RESET_INFO an option,
-- and reboot gives the list of what it does to the ports and the processor; the bytes that reads
-- of port 0x64 give are a parameter. A loop over a table or of polls has as many rounds as the
-- code gives it. Acpi/Checksum and Tables are about the parts, Found about init, Reset about
-- reboot.
--
-- Kmem models mem_analyze and phys_to_virt of src/kmem/mod.rs, and init_heap of src/kmem/heap.rs
-- over Buddy. The mapper and the frame allocator are parameters; that map_to sets one page and
-- keeps the others is a hypothesis, Maps. Kmem/Totals, Usable and Span are about the figures,
-- Usable with the frames of Frame; Mapped is about init_heap. Kmem/Lines and Reported are about
-- what the report says. Kmem/Analysis and Figures give the lines that mem_analyze prints, for the
-- answers of the boot loader and the register CR3, which are a parameter, Machine.
--
-- Shell models src/shell.rs, the functions of src/console.rs outside Console, and the breakpoint's
-- handler of src/int.rs. A state is the record Kernel, a call ends in End, which is a state, a
-- panic, or a call that does not return. Shell/Parsing is what the commands use of the language's
-- library on texts, as lists of ASCII bytes; Commands, HeapCommands and Execute are the commands,
-- the dispatch and the key handler. Printing, Kept, HeapKept and Keys show that valid consoles,
-- file systems and heaps stay valid, Words, Numbers and Freed are about lines and numbers that are
-- printed and read, Prints about what the macros print, Echoed about echo, Analyzed about mem-
-- analyze. That the console is initialised is part of the state; the printed stack frame is a
-- parameter.
--
-- Interrupts models the handlers of src/int.rs on the kernel of Shell: a State has the decoder of
-- the keyboard and the interrupts whose end the controller of src/pic.rs has been told, an Outcome
-- says whether the handler returns. Faults has the handlers of the exceptions, Dispatch those of
-- the hardware and the descriptor table, Handled what they leave, Runs the states that one
-- interrupt after another leads to. The crate that decodes the bytes of the keyboard is a
-- parameter, and so is what crates print of addresses and codes.
--
-- The modules named Tests hold concrete runs of the theorems. Not modelled: paging, the set-up of
-- interrupts and of the serial port and the boot sequence, which are calls of hardware crates; the
-- text that the ACPI code prints.
pub mod Base
pub mod Buddy
pub mod Frame
pub mod Fb
pub mod Font
pub mod Console
pub mod TempFs
pub mod ListAllocator
pub mod Acpi
pub mod Kmem
pub mod Shell
pub mod Interrupts
