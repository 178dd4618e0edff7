-- ===== src/Lib.antt =====
-- The kernel of VibecodedOS.
--
-- Parts, and the modules that model them (paths from the repository's root):
--   Mm.Pmm       Kernel/mm/pmm.c, the physical page allocator: a bitmap of used pages, a bitmap of
--                pinned pages and counters. PmmInit is `init`, PmmAllocPage `alloc_page`,
--                PmmAllocPages `alloc_pages`, PmmFreePage `free_page`, PmmPinPage `pin_page`.
--   Mm.Heap      Kernel/mm/heap.c, the kernel heap, which takes its pages from PmmAllocPages: HeapInit
--                is `heap_init`, HeapExpand `expand`, KmAlloc `km_alloc`, KmFree `km_free`. The
--                linked list of headers is a list of blocks with their addresses.
--   Keyboard     Kernel/keyboard.c: the interrupt handler `irq_handler` fills two rings (`put`), which
--                KeyboardGetKey and KeyboardGetKeyEvent read (`get`).
--   Net.Tcp      Kernel/net/tcp.c: the table of sockets. A received segment is `handle_packet`, split
--                by the parts of TcpHandlePacket; TcpPoll is `poll`; TcpConnect, TcpSend, TcpRecv and
--                TcpClose are modelled up to where they wait for an interrupt, and what happens
--                meanwhile is a sequence of steps (`Step` of Net/Tcp/Reach). The loop of TcpSend, with
--                what arrives between its rounds, is `send_loop` of Net/Tcp/Sending.
--   Net.Arp      Kernel/net/arp.c: the cache and the packets (ArpHandlePacket is `handle_packet`,
--                ArpResolve `resolve`).
--   Net.Ipv4     Kernel/net/ipv4.c: Ipv4Send is `send`, which asks Net.Arp for the next hop; the checks
--                of Ipv4HandlePacket are `accept`.
--   Net.Udp      Kernel/net/udp.c: UdpSend builds a `datagram`, UdpHandlePacket is `handle_packet`.
--   Net.Dns      the resolver in the same file, DnsResolve, by its parts.
--   Net.Stack    Kernel/net/net.c and the dispatch of Kernel/net/ipv4.c: NetPoll is `net_poll`, which
--                gives each frame to Net.Arp, Net.Tcp or Net.Udp.
--   Net.Bytes    byte order and memory blocks, as Kernel/net uses them.
--   Net.Ethernet Kernel/net/ethernet.c: EthSend is `eth_send`, EthReceive `eth_receive`.
--   Mm.Vmm       Kernel/mm/vmm.c: the page tables, which take their pages from Mm.Pmm (GetNextLevel is
--                `get_next_level`, VmmMapPage `map_page`, VmmUnmapPage `unmap_page`, VmmGetPhysical
--                `get_physical`).
--   Process      Kernel/proc/process.c: the choice of the next thread, PsScheduleNext.
--   Runtime      Kernel/runtime.c: RtMemMove is `mem_move`, RtStrLen `str_len`, RtUtoa `utoa`.
--   Fs.Fat       Kernel/fs/fat32.c, the file system, for FAT12, FAT16 and FAT32. The drive is its
--                sectors and the set of those that fail (`Disk`). Fat32Init is `init`,
--                FatGetFatEntry `get_fat_entry`, FatSetFatEntry `set_fat_entry`, FatAllocateCluster
--                `allocate_cluster`, FatFreeClusterChain `free_cluster_chain`, FatParseDirEntry
--                `parse_dir_entry`, FatExtractLfn `extract_lfn`, Fat32ReadFile `read_file`,
--                Fat32ReadFileAt `read_file_at`, FatFindFreeSlots `find_free_slots`, FatExpandDirectory
--                `expand_directory`; of Fat32WriteFile the third step is `write_data`, and the fourth
--                one for a new file `write_new_entry`; FatFindEntry is `find_entry`.
--   Prelude      names, tests, lists, words and bits that all modules share.
--
-- Each component has its definitions in the file of its name and its theorems in the files of the
-- folder of that name; a module Tests holds runs on concrete states.
--
-- Numbers are natural numbers; the wrap-around of u8, u16, u32 and u64 is written out (`add64`,
-- `sub32`, `% u16_mod`). A global variable is a field of the record of its component, and a function
-- that writes one returns the new record. A function that sends returns what it sends. KdPanic is a
-- result of its own. Loops are recursions on the number of rounds that their bounds leave, or on the
-- list they walk. Only KmAlloc calls itself without a bound: `alloc_loop` has fuel 2, and
-- Mm.Heap.Grant shows that it is enough. `fold_carries` has fuel 3 (Net.Ipv4.Sums), DnsSkipName as
-- many rounds as bytes and DnsEncodeName as many as characters (Net.Dns.Names). The loops of fat32.c
-- that follow a chain of clusters have fuel too: one round more than the chain has clusters is enough.
--
-- Not modelled: log output; device registers and ports (E1000, AHCI, ATA, NVMe, HDA, PIC, PIT);
-- what an overrun of an array on the stack destroys (`b1_buf` of FatGetFatEntry, `packet` of
-- Ipv4Send); the ATA driver below the file system, and Fat32ReadDir and Fat32OpenPath, and the
-- calls of fat32.c that start with a path; the waiting of a call for an interrupt; the boot
-- loader, gnu-efi and Doom, which are not the kernel's own logic.
pub mod Prelude
pub mod Mm
pub mod Net
pub mod Fs
pub mod Keyboard
pub mod Runtime
pub mod Process
